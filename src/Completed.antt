-- ===== src/Completed.antt =====
-- The cached ids of the published submissions: data_manager/models.py and data_manager/signals.py.
pub mod Cache
pub mod Fresh
pub mod Examples
