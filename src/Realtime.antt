-- ===== src/Realtime.antt =====
-- `validate_realtime_submission_task` of data_manager/tasks.py: the verification of a realtime
-- submission, from stage 1 over stage 2 to stage 3 or a rejection.
pub mod Codes
pub mod Same
pub mod Trail
pub mod Verify
pub mod Recorded
pub mod Passing
pub mod Rules
pub mod Examples
