-- ===== src/Write.antt =====
-- `FeedSubmissionWriteSerializer` of data_manager/api/serializers.py: what a request may change of a
-- static submission, with `StaticFeedEntry.clean` and the signals of data_manager/signals.py.
pub mod Sent
pub mod Cleaning
pub mod Checking
pub mod Saving
pub mod Results
pub mod Sources
pub mod Restricted
pub mod Contract
pub mod Uploads
mod Examples
