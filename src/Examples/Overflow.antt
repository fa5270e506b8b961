-- ===== src/Examples/Overflow.antt =====
-- A copy on a rented machine is taken out of a site of two addresses.

use deploy_hub.Prelude.{
  Bool, ℕ, String, ◌≡◌, ◌≢◌, refl, ap, true, false, Option, none, some, List, [], ◌∷◌, arith, ◌==◌,
  str_eq, str_eq_iff, if◌then◌else◌,
}
use deploy_hub.Findings.{Inbox}
use deploy_hub.Findings.Text.{strip, lstrip, rstrip, is_space}
use deploy_hub.Findings.Consistency.{IsConsistent}
use deploy_hub.Prelude.Table.{find}
use deploy_hub.Locks.{acquire, at_key, key_eq, scope_eq}
use deploy_hub.Overflow.{
  Place, Work, Target, ready, running, by_dns, done, tunnel_home, primary_ipv4, joinable_ipv4,
  is_refused, scale_in_overflow, join_overflow_traffic, scale_in_gate, scale_in_under_locks, unjoin,
  retire, terminate, settle, values_without, joinable_all, or_primary, is_decommissioned,
  is_primary, with_lock,
}
use deploy_hub.Overflow.Locked.{Restores, scale_in_overflow-Restores}
use deploy_hub.Overflow.Values.{is_clean}
use deploy_hub.Overflow.Unjoined.{IsOut, scale_in_overflow-IsOut}

abbrev str : ℕ → String
str n = "7"

abbrev parse : String → Option ℕ
parse s =
    if str_eq s "198.51.100.7"
    then some 3325256711
    else if str_eq s "203.0.113.5"
    then some 3405803781
    else none

abbrev show : ℕ → String
show n = if n == 3325256711 then "198.51.100.7" else "203.0.113.5"

written : (s : String) (n : ℕ) → parse s ≡ some n → show n ≡ s
written s n e = ground (arith, e, str_eq_iff s "198.51.100.7", str_eq_iff s "203.0.113.5")

abbrev values : List String → List String
values o = o

abbrev ensure_dns : List String → List String → Bool × List String
ensure_dns vs o = (true, vs)

abbrev calm : List String → Bool × List String
calm o = (true, o)

abbrev same_inbox : Inbox → Inbox
same_inbox inbox = inbox

abbrev rented : Target
rented = record {
  pk = 9;
  is_aws_ec2 = true;
  is_ephemeral = true;
  status = ready;
  host = "203.0.113.5";
  tunnel = false;
}

abbrev place : Place
place = record {
  site = record {
    pk = 7;
    name = "shop";
    domain = "shop.example";
    workspace = 1;
    primary_target = some 4;
    scale_ready = true;
    is_mesh_only = false;
    dns_zone = none;
    is_partner = false;
  };
  primary = some (record rented { pk = 4; is_ephemeral = false; host = "198.51.100.7" });
  has_dns = true;
}

abbrev joined : Work (List String)
joined = record {
  inbox = record { rows = []; audits = []; events = []; next_pk = 0; clock = 9 };
  target = rented;
  instances = record { desired = running; observed = running } ∷ [];
  outside = "198.51.100.7" ∷ "203.0.113.5" ∷ [];
}

joined-IsConsistent : IsConsistent joined.inbox
unfolding find
joined-IsConsistent = record {
  pks = tt;
  below = tt;
  keys = tt;
  same_trail = refl;
  told = λ k. refl;
}

scale_in_overflow-Restores_example :
    Restores []
      (scale_in_overflow str parse show values ensure_dns calm calm same_inbox 5 place joined []).1
    × Restores []
        (join_overflow_traffic str parse show values ensure_dns calm calm same_inbox 5 place joined
          []).1
scale_in_overflow-Restores_example =
    scale_in_overflow-Restores str parse show values ensure_dns calm calm same_inbox 5 place joined
      [] tt

clean : is_clean joined.outside ≡ true
unfolding strip lstrip rstrip is_space
clean = refl

named : str_eq (strip rented.host) "" ≡ false
unfolding strip lstrip rstrip is_space
named = refl

apart : primary_ipv4 parse show place ≢ some (strip rented.host)
unfolding primary_ipv4 joinable_ipv4 is_refused strip lstrip rstrip is_space
apart e =
    let differ : false ≡ true =
      ap (λ (o : Option String). elim o [ none ↦ false | some s ↦ str_eq s "203.0.113.5" ]) e in
    cc

no_tunnel : tunnel_home place ≡ false
unfolding tunnel_home
no_tunnel = refl

returns :
    (scale_in_overflow str parse show values ensure_dns calm calm same_inbox 5 place joined []).0.0
    ≡ done by_dns
unfolding scale_in_overflow scale_in_gate is_primary with_lock acquire scale_in_under_locks unjoin
    retire terminate settle tunnel_home values_without joinable_all or_primary primary_ipv4
    joinable_ipv4 is_refused is_decommissioned strip lstrip rstrip is_space at_key key_eq scope_eq
returns = refl

scale_in_overflow-IsOut_example :
    IsOut str parse show values ensure_dns calm calm same_inbox place joined
      (scale_in_overflow str parse show values ensure_dns calm calm same_inbox 5 place joined
        []).0.1
scale_in_overflow-IsOut_example =
    scale_in_overflow-IsOut str parse show values ensure_dns calm calm same_inbox 5 place joined []
      by_dns written (λ v vs o e. refl) (λ o e. refl) joined-IsConsistent no_tunnel refl clean named
      apart returns
