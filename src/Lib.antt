-- ===== src/Lib.antt =====
-- The core of Deploy Hub, a Django hub that deploys sites to targets over SSH: the operation locks,
-- the deploy pipeline with its liveness sweep, the reconciler, the inbox of findings, the decision
-- that a site is under sustained pressure and what is proposed then, the traffic of a rented machine,
-- the probes of the sites' uptime, the engine that keeps alerts from becoming noise, the poller of the
-- git branches, the audit trail, the envelopes of tasks, and the roles of the users.
--
-- How the parts interact. A deployment takes the locks of its site and its target before it runs,
-- keeps them alive with its heartbeat, and gives them back when it ends. The sweep settles deployments
-- whose heartbeat is old. The reconciler repairs what is not as desired, under a lock of its own,
-- and gives way to a deployment. Every engine files what needs attention in the inbox. A worker that
-- refuses a task's envelope says so in the audit trail. The probes feed the anti-noise engine, which
-- files what it opens in the inbox. The poller queues the deployments that the pipeline runs.
--
--   Locks         core/locks.py over the OperationLock rows of core/models/fleet.py
--     Locks/Table   the unique constraint as an invariant
--     Locks/Map     a partial map from keys to holders as the specification
--     Locks/Cycle   the guard of the periodic cycles, _acquire_cycle_lock of monitor/uptime.py
--   Deploy        deploys/pipeline.py and deploys/heartbeat.py
--     Deploy/State  the rows of deploys/models.py, and the hub that the operations change
--     Deploy/Effect a run over the hub: a value, an exception, or a killed process
--     Deploy/Begin  begin_deploy, release_deploy_locks, touch_heartbeat, _supersede_running
--     Deploy/Run    execute, _execute_running, _run_step, _mark_failed, rollback
--     Deploy/Sweep  sweep
--   Findings      core/findings.py
--     Findings/Consistency, Findings/Keeps, Findings/Lifecycle
--                   the invariant of the inbox, its preservation, and the life of one row
--     Findings/Others  what a filing or a transition leaves alone
--   Reconcile     reconcile/loop.py, and tick_all of reconcile/tasks.py
--     Reconcile/Rows  the rows, and _audit_once
--     Reconcile/Guards, Reconcile/Budget, Reconcile/Global, Reconcile/Rearm
--                   what stands around one repair, how many there are in a tick and in tick_all, and
--                   rearm
--     Reconcile/Unique  the primary keys of the instances
--     Reconcile/Exclusion  a tick under a lock that is held
--   Scaling       scaling/pressure.py
--     Scaling/Streak  what a decision says of the samples
--     Scaling/Destination  scaling/destination.py
--     Scaling/Evaluator    evaluate_site of scaling/evaluator.py with scaling/attack_gate.py
--       Scaling/Evaluator/Retract, Scaling/Evaluator/Order
--                     what is taken back, and when a proposal is made
--   Audit         core/audit.py
--     Audit/Chain     the chains and their heads under audit()
--     Audit/Evidence  what a verified chain shows
--     Audit/Ship      core/audit_ship.py: the copy in an append-only store
--       Audit/Ship/Marks, Audit/Ship/Mirror, Audit/Ship/Verified
--                     the store as a mirror of what was shipped, and its check
--   Envelope      core/task_envelope.py
--     Envelope/Replay  round trip and replay
--   Uptime        monitor/uptime.py
--     Uptime/History, Uptime/Transitions, Uptime/Cycle
--                     the events as a history, record_transition, and a whole cycle
--     Uptime/Alerts   cycles of probes over the anti-noise engine
--   Noise         monitor/antinoise.py
--     Noise/Text      fingerprints and entities
--     Noise/State, Noise/Fleet  its rows, and what it reads of the fleet
--     Noise/Delivery  suppressed_by, _flap_holds, _annotate_delivery
--     Noise/Engine    storm_breaker, recovery_notice, after_raise; raise_alert of monitor/alerts.py
--     Noise/Observe   observe, _open, _close, flap_check
--     Noise/Group     group_p2; deliver_grouped of monitor/pager.py
--     Noise/Alerts, Noise/Keeps, Noise/Opening
--                     what each write leaves of an alert
--     Noise/Readings, Noise/Hysteresis  the observations as a specification of observe
--     Noise/Rate, Noise/Storm, Noise/Tenants, Noise/Delivered
--                     the rate of pushes, workspaces, and what is sent once
--   Poller        poll of deploys/poller.py
--     Poller/Beats, Poller/Once, Poller/Runs, Poller/Repeat
--                     the invariant of the queue, polls and workers, and a head that is met again
--   Roles         core/rbac.py
--     Roles/Table, Roles/Lattice, Roles/Scope
--                     the capabilities of the roles, and what a user may reach
--     Roles/Gate      core/permissions.py, and the gate of core/hud/common.py
--   Overflow      deploys/overflow.py, without deploy_overflow_copy
--     Overflow/Locked, Overflow/Values, Overflow/Unjoined
--                     its locks, the A record without a host, and a copy that is taken out
--   Prelude       shared names, Boolean tests, lists and tables of rows
--   Examples      the theorems at concrete inputs, and tests
--
-- State and operations. A database table is a list of rows in the order of their primary keys, and an
-- operation takes the state and returns the new one. A transaction is one step. Times are counts of
-- seconds (microseconds in Scaling) from a clock that the state holds or an argument; `a < b - limit`
-- is written `a + limit < b`, so that nothing is subtracted. A loop of the source is structural
-- recursion on the rows that it reads, so every run ends. Fuel is used for _entity_of, which calls
-- itself on a part of its text, and for the digits of a number: one more than the text has code points,
-- and one more than the number, are enough. after_raise and raise_alert call each other to the depth
-- that a counter allows, one, so that a filing within is another function.
--
-- What is a parameter. The calls of the pipeline into the step modules, the seams, the vault and the
-- artifact writers are `outside`, of which a theorem assumes only that it keeps the lock rows unique,
-- or does not reopen a step, where its statement says so. The filing of a finding takes `race`, what
-- other engines commit between its SELECT and its INSERT, and a repair what they commit before its
-- re-check; `observe` and `act` are the reading of a container and the command to it, which may raise.
-- The reason of an observation is cut to the texts that it is compared with. The body of a guarded
-- cycle is a function. The digest of the audit trail, the signature of an envelope, json.dumps of a
-- row and of a body, the cache of nonces, and the reading of an address are parameters too; a digest is
-- never taken to be injective; a theorem that needs it assumes that no two events at one place of the
-- two chains that it compares clash. What
-- follows the filing of an alert is `handoff`, of which a theorem assumes that it leaves one row alone.
-- The check of a git address, the head of a branch, the window of a site and the publishing of a batch
-- are parameters of the poller and of the grouped delivery.
--
-- What is not modelled: the retries of the heartbeat on a busy SQLite file; the desired dictionary
-- that the steps read; the full wire shape of an event; HTTP, websockets and the user interface; the
-- clients of outside services; encryption; how the reconciler reads the payload of the collector; the
-- monitors but for the uptime probes, without the card of a websocket site, and the anti-noise engine;
-- the pager's single deliveries; how the head of a branch is fetched and how a cron line is read; the launch of a rented
-- machine and the deploy onto it; the loop of the evaluator over the sites; and the S3 store, and the
-- finding that a failed shipment files.
mod Prelude
pub mod Locks
pub mod Deploy
pub mod Findings
pub mod Reconcile
pub mod Scaling
pub mod Audit
pub mod Envelope
pub mod Uptime
pub mod Noise
pub mod Poller
pub mod Roles
pub mod Overflow
mod Examples
