-- ===== src/Loops.antt =====
-- The self-scheduling fetch loop of one realtime endpoint: data_manager/tasks.py, lines 36-55, 92-141
-- and 276-450, and the views that pause and resume it (data_manager/api/views.py, 1111-1144).
pub mod Markers
pub mod Task
pub mod Seeding
pub mod Steps
pub mod Bound
pub mod Single
pub mod Timely
pub mod Healing
mod Examples
