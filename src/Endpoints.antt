-- ===== src/Endpoints.antt =====
-- Requests on realtime submissions: `RealtimeSubmissionWriteSerializer` of
-- data_manager/api/serializers.py and the update handler of data_manager/api/views.py.
pub mod Rows
pub mod Merging
pub mod Checks
pub mod Updates
pub mod Origins
pub mod Restricted
pub mod Examples
