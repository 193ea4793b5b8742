-- ===== src/Dispatch.antt =====
-- The daily fetches of static feeds: `refresh_static_feeds_task` of data_manager/tasks.py.
pub mod Window
pub mod Ticks
pub mod Queued
mod Examples
