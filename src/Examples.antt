-- ===== src/Examples.antt =====
-- The theorems at concrete inputs, and tests by evaluation.
mod Locks
mod Deploy
mod Findings
mod Reconcile
mod Scaling
mod Audit
mod Envelope
mod Uptime
mod Evaluator
mod Overflow
mod Noise
mod Poller
mod Roles
