-- ===== src/Overflow.antt =====
-- deploys/overflow.py: joining the traffic of a running overflow copy, and taking it out again.
-- `Outside` is what the DNS provider, the replica and the cloud provider act on, and its `a_values` are
-- the hosts of the site's A record, without white space: the Hub's DnsRecord rows, which ensure_dns writes
-- as it calls the provider, are a part of it. A call outside says whether it came through, `false` when it
-- raises, and gives what it leaves. `parse` reads an address as ipaddress.IPv4Address does, as a number,
-- and `show` writes it.
pub mod Locked
pub mod Values
pub mod Unjoined
use Prim.Native.String.{◌++◌ as ◌<>◌}
use Prim.Native.Nat.{◌/◌}
use deploy_hub.Prelude.{
  ℕ, ◌+◌, ◌*◌, String, Bool, true, false, not, ◌&&◌, ◌||◌, Option, none, some, List, [], ◌∷◌, ◌==◌,
  ltb, leb, str_eq, if◌then◌else◌, is_some, any, filter,
}
use deploy_hub.Locks.{Key, Scope, Kind, Ident, pk, text, OperationLock, acquire, release}
use deploy_hub.Findings.{Inbox, Finding, State, accepted, by_key, resolve}
use deploy_hub.Findings.Text.{strip}
use deploy_hub.Scaling.Evaluator.{Site, is_active, proposal_fp, refuse_if_attack}

pub data Status : Type 0 where
  pending ready error decommissioned : Status

-- `tunnel`: the collected payload says so.
pub record Target : Type 0 where
  pub pk : ℕ
  pub is_aws_ec2 : Bool
  pub is_ephemeral : Bool
  pub status : Status
  pub host : String
  pub tunnel : Bool

-- The site, with its primary target, and whether a DNS provider is given or can be constructed.
pub record Place : Type 0 where
  pub site : Site
  pub primary : Option Target
  pub has_dns : Bool

-- SiteInstance of the site on the overflow target, cut to whether it runs and to ABSENT.
pub data InstanceState : Type 0 where
  running absent other : InstanceState

pub record Instance : Type 0 where
  pub desired : InstanceState
  pub observed : InstanceState

-- The messages of OverflowDeployError; `outside_error` is any other exception.
pub data Refusal : Type 0 where
  attack no_proposal need_origin wrong_target copy_not_running lock_busy equal_ipv4 : Refusal
  no_dns unjoin_fail terminate_fail outside_error : Refusal

pub data Result {ℓ} (A : Type ℓ) : Type ℓ where
  done : A → Result A
  raised : Refusal → Result A

pub data Joined : Type 0 where
  tunnel : Joined
  dns : List String → Joined

pub data Unjoining : Type 0 where
  nothing by_tunnel by_dns : Unjoining

-- What an operation changes next to the locks. `instances` are the SiteInstance rows of the site and the
-- target, by their keys.
pub record Work {ℓ} (Outside : Type ℓ) : Type ℓ where
  pub inbox : Inbox
  pub target : Target
  pub instances : List Instance
  pub outside : Outside

unfoldable pub is_ready : Status → Bool
is_ready ready = true
is_ready _ = false

unfoldable pub is_decommissioned : Status → Bool
is_decommissioned decommissioned = true
is_decommissioned _ = false

unfoldable pub is_running : InstanceState → Bool
is_running running = true
is_running _ = false

unfoldable pub is_primary : Place → Target → Bool
is_primary place target = elim place.primary [ none ↦ false | some p ↦ target.pk == p.pk ]

-- Of the first row, which `.first()` takes: it runs, and what scale_in_overflow makes of it.
unfoldable pub has_running_copy : List Instance → Bool
has_running_copy [] = false
has_running_copy (i ∷ instances) = is_running i.observed

unfoldable pub mark_absent : List Instance → List Instance
mark_absent [] = []
mark_absent (i ∷ instances) = record { desired = absent; observed = absent } ∷ instances

-- The gates of scale_in_overflow, in their order.
unfoldable pub scale_in_gate : Place → Target → Option Refusal
unfolding is_primary
scale_in_gate place target =
    if place.site.is_partner
    then some attack
    else if not (target.is_aws_ec2 && target.is_ephemeral && not (is_primary place target))
    then some wrong_target
    else none

-- _tunnel_home
unfoldable pub tunnel_home : Place → Bool
tunnel_home place = elim place.primary [ none ↦ false | some p ↦ not p.is_aws_ec2 && p.tunnel ]

unfoldable pub is_accepted_row : Option Finding → Bool
is_accepted_row none = false
is_accepted_row (some r) = elim r.state [ accepted ↦ true | _ ↦ false ]

-- The networks that no origin may be in: 127/8, 169.254/16, 224/4, 0.0.0.0, _RFC1918 and _CGNAT.
unfoldable pub is_refused : ℕ → Bool
is_refused a =
    (a / 16777216) == 127
    || (a / 65536) == 43518
    || (a / 268435456) == 14
    || a == 0
    || (a / 16777216) == 10
    || (a / 1048576) == 2753
    || (a / 65536) == 49320
    || (a / 4194304) == 401

-- The joinable addresses, or the primary's when there are none.
unfoldable pub or_primary : List String → Option String → Option (List String)
or_primary (ip ∷ ips) primary = some (ip ∷ ips)
or_primary [] none = none
or_primary [] (some ip) = some (ip ∷ [])

-- `try … finally` around a lock; `busy` is the result when another holds it.
unfoldable pub with_lock {ℓ} :
    {A : Type ℓ}
    → ℕ
    → Key
    → Ident
    → A
    → (List OperationLock → A × List OperationLock)
    → List OperationLock
    → A × List OperationLock
with_lock now k h busy body t =
    let (t', lock) = acquire now k h t in
    if is_some lock then (let (a, t2) = body t' in (a, (release k (some h) t2).0)) else (busy, t')

abbrev pub site_lock : ℕ → Key
site_lock n = record { scope = Scope.site; object_id = pk n; kind = Kind.deploy }

abbrev pub target_lock : ℕ → Key
target_lock n = record { scope = Scope.target; object_id = pk n; kind = Kind.deploy }

module _ (parse : String → Option ℕ) (show : ℕ → String) where
  -- _joinable_ipv4
  unfoldable pub joinable_ipv4 : String → Option String
  unfolding is_refused
  joinable_ipv4 host = elim (parse (strip host)) [
    | none ↦ none
    | some a ↦ if is_refused a then none else some (show a)
  ]

  unfoldable pub joinable_all : List String → List String
  unfolding joinable_ipv4
  joinable_all [] = []
  joinable_all (p ∷ parts) =
      let rest = joinable_all parts in elim (joinable_ipv4 p) [ none ↦ rest | some ip ↦ ip ∷ rest ]

  unfoldable pub primary_ipv4 : Place → Option String
  unfolding joinable_ipv4
  primary_ipv4 place = joinable_ipv4 (elim place.primary [ none ↦ "" | some p ↦ p.host ])

  -- What the A record is to hold without `host`; `none`: nothing is left.
  unfoldable pub values_without : Place → String → List String → Option (List String)
  unfolding joinable_all primary_ipv4 or_primary
  values_without place host parts =
      or_primary (joinable_all (filter (λ p. not (str_eq p host)) parts)) (primary_ipv4 place)

module _ (str : ℕ → String) (parse : String → Option ℕ) (show : ℕ → String) where
  module _ {ℓ} {Outside : Type ℓ} (a_values : Outside → List String)
      (ensure_dns : List String → Outside → Bool × Outside)
      (replica terminate_instance : Outside → Bool × Outside) (file_failed : Inbox → Inbox) where
    -- join_overflow_traffic under its lock.
    unfoldable pub join_under_lock : Place → Work Outside → Result Joined × Work Outside
    unfolding tunnel_home primary_ipv4 joinable_ipv4
    join_under_lock place w =
        if tunnel_home place
        then (let (came_through, outside) = replica w.outside in
            (
              if came_through then done Joined.tunnel else raised outside_error,
              record w { outside = outside },
            ))
        else elim (primary_ipv4 parse show place) [
          | none ↦ (raised need_origin, w)
          | some primary_ip ↦ elim (joinable_ipv4 parse show w.target.host) [
            | none ↦ (raised need_origin, w)
            | some overflow_ip ↦
                if str_eq primary_ip overflow_ip
                then (raised equal_ipv4, w)
                else if not place.has_dns
                then (raised no_dns, w)
                else let (came_through, outside) =
                    ensure_dns (primary_ip ∷ overflow_ip ∷ []) w.outside in
                  (
                    if came_through
                        then done (dns (primary_ip ∷ overflow_ip ∷ []))
                        else raised outside_error,
                    record w { outside = outside },
                  )
          ]
        ]

    -- The gates of join_overflow_traffic, in their order.
    unfoldable pub join_gate : Place → Work Outside → Option Refusal
    unfolding is_accepted_row is_primary is_ready is_running has_running_copy refuse_if_attack
        proposal_fp
    join_gate place w =
        if refuse_if_attack str place.site w.inbox
        then some attack
        else if not
            (is_accepted_row (by_key place.site.workspace (proposal_fp str place.site) w.inbox))
        then some no_proposal
        else if place.site.is_mesh_only
        then some need_origin
        else if not (
            w.target.is_aws_ec2
            && w.target.is_ephemeral
            && is_ready w.target.status
            && not (is_primary place w.target))
        then some wrong_target
        else if has_running_copy w.instances
        then none
        else some copy_not_running

    unfoldable pub join_overflow_traffic :
        ℕ
        → Place
        → Work Outside
        → List OperationLock
        → (Result Joined × Work Outside) × List OperationLock
    unfolding join_gate join_under_lock with_lock
    join_overflow_traffic now place w locks = elim (join_gate place w) [
      | some refusal ↦ ((raised refusal, w), locks)
      | none ↦
          with_lock now (site_lock place.site.pk) (text ("overflow-join:" <> str place.site.pk))
            (raised lock_busy, w) (λ t. (join_under_lock place w, t)) locks
    ]

    -- The branches of scale_in_overflow up to the termination.
    unfoldable pub unjoin : Place → Work Outside → Result Unjoining × Work Outside
    unjoin place w =
        let host = strip w.target.host in
        let parts = a_values w.outside in
        if tunnel_home place
        then (let (came_through, outside) = replica w.outside in
            (
              if came_through then done by_tunnel else raised outside_error,
              record w { outside = outside },
            ))
        else if place.site.is_mesh_only
        then (done nothing, w)
        else if str_eq host "" || not (any (λ p. str_eq p host) parts)
        then (done nothing, w)
        else elim (values_without parse show place host parts) [
          | none ↦ (raised unjoin_fail, w)
          | some values ↦
              if not place.has_dns
              then (raised unjoin_fail, w)
              else let (came_through, outside) = ensure_dns values w.outside in
                (
                  if came_through then done by_dns else raised unjoin_fail,
                  record w { outside = outside },
                )
        ]

    -- terminate_aws_target of provision/aws_enroll.py, for a target that is not decommissioned; the
    -- Boolean says whether it raised.
    unfoldable pub terminate : Work Outside → Bool × Work Outside
    terminate w =
        let (came_through, outside) = terminate_instance w.outside in
        if came_through
        then (
          false,
          record w { outside = outside; target = record w.target { status = decommissioned } },
        )
        else (
          true,
          record w {
            outside = outside;
            inbox = file_failed w.inbox;
            target = record w.target { status = error };
          },
        )

    -- After the termination: the instance's row and the proposal.
    unfoldable pub settle : Place → Work Outside → Work Outside
    unfolding proposal_fp is_active mark_absent
    settle place w = record w {
      instances = mark_absent w.instances;
      inbox = elim (by_key place.site.workspace (proposal_fp str place.site) w.inbox) [
        | none ↦ w.inbox
        | some r ↦ if is_active r.state then (resolve r w.inbox).1 else w.inbox
      ];
    }

    unfoldable pub retire : Place → Unjoining → Work Outside → Result Unjoining × Work Outside
    retire place unjoined w =
        if is_decommissioned w.target.status
        then (done unjoined, settle place w)
        else let (failed, w') = terminate w in
          if failed then (raised terminate_fail, w') else (done unjoined, settle place w')

    -- scale_in_overflow under both locks.
    unfoldable pub scale_in_under_locks : Place → Work Outside → Result Unjoining × Work Outside
    scale_in_under_locks place w =
        let (result, w') = unjoin place w in
        elim result [
          | raised refusal ↦ (raised refusal, w')
          | done unjoined ↦ retire place unjoined w'
        ]

    unfoldable pub scale_in_overflow :
        ℕ
        → Place
        → Work Outside
        → List OperationLock
        → (Result Unjoining × Work Outside) × List OperationLock
    unfolding with_lock
    scale_in_overflow now place w locks =
        let holder = text ("overflow-scale-in:" <> str place.site.pk) in
        elim (scale_in_gate place w.target) [
          | some refusal ↦ ((raised refusal, w), locks)
          | none ↦
              with_lock now (site_lock place.site.pk) holder (raised lock_busy, w)
                (with_lock now (target_lock w.target.pk) holder (raised lock_busy, w)
                  (λ t. (scale_in_under_locks place w, t)))
                locks
        ]
