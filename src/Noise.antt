-- ===== src/Noise.antt =====
-- monitor/antinoise.py: what comes of a probe's result and of a filing before anything is pushed.
pub mod Text
pub mod State
pub mod Fleet
pub mod Delivery
pub mod Engine
pub mod Observe
pub mod Alerts
pub mod Keeps
pub mod Opening
pub mod Readings
pub mod Hysteresis
pub mod Rate
pub mod Storm
pub mod Tenants
pub mod Group
pub mod Delivered
