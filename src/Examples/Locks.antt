-- ===== src/Examples/Locks.antt =====
-- core/locks.py and the cycle guard at concrete tables.
use deploy_hub.Prelude.{◌≡◌, refl, ℕ, true, none, List, [], ◌∷◌, arith, is_some, not}
use deploy_hub.Locks.{
  Key, Scope, Kind, Ident, OperationLock, acquire, key_eq, scope_eq, ident_eq, kind_eq, at_key,
}
use deploy_hub.Locks.Map.{holder_of, take_free, acquire-take_free}
use deploy_hub.Locks.Cycle.{
  probe_cycle_lock, probe_cycle_holder, acquire_cycle_lock, late_end_frees_successor, cycle_end,
}

abbrev site_lock : Key
site_lock = record { scope = Scope.site; object_id = Ident.pk 3; kind = Kind.deploy }

abbrev target_lock : Key
target_lock = record { scope = Scope.target; object_id = Ident.pk 8; kind = Kind.deploy }

abbrev held : List OperationLock
held = record { key = site_lock; holder = Ident.pk 5; acquired_at = 10; heartbeat_at = 10 } ∷ []

second_is_refused : (acquire 20 site_lock (Ident.pk 6) held).1 ≡ none
unfolding acquire at_key key_eq scope_eq ident_eq kind_eq
second_is_refused = refl

acquire-take_free_example :
    (holder_of (acquire 20 target_lock (Ident.pk 6) held).0 target_lock
      ≡ take_free (holder_of held) target_lock (Ident.pk 6) target_lock)
    × (is_some (acquire 20 target_lock (Ident.pk 6) held).1
        ≡ not (is_some (holder_of held target_lock)))
acquire-take_free_example = acquire-take_free 20 target_lock target_lock (Ident.pk 6) held

abbrev probing : List OperationLock
probing =
    record {
      key = probe_cycle_lock;
      holder = probe_cycle_holder;
      acquired_at = 10;
      heartbeat_at = 10;
    }
    ∷ []

abbrev count_sites : List OperationLock → List OperationLock × ℕ
count_sites t = (t, 7)

late_end_frees_successor_example :
    (is_some
        (acquire_cycle_lock 400 probe_cycle_lock probe_cycle_holder
          (acquire_cycle_lock 10 probe_cycle_lock probe_cycle_holder []).0).1
      ≡ true)
    × (is_some
          (acquire_cycle_lock 400 probe_cycle_lock probe_cycle_holder (
            cycle_end probe_cycle_lock probe_cycle_holder
              (acquire_cycle_lock 400 probe_cycle_lock probe_cycle_holder
                (acquire_cycle_lock 10 probe_cycle_lock probe_cycle_holder []).0).0)).1
        ≡ true)
late_end_frees_successor_example =
    late_end_frees_successor 10 400 probe_cycle_lock probe_cycle_holder [] tt refl (omega arith)
