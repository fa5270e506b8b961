-- ===== src/Deploy.antt =====
-- The deployment state machine: deploys/pipeline.py, deploys/heartbeat.py and deploys/models.py.
pub mod State
pub mod Effect
pub mod Keeps
pub mod Run
pub mod Sweep
pub mod Begin
