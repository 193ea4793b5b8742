-- ===== src/Planner.antt =====
-- planner/access.py: the limits of the public planner API.
pub mod Counters
pub mod Throttle
pub mod Limits
pub mod Requests
mod Examples
