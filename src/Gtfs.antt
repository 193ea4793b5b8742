-- ===== src/Gtfs.antt =====
-- The end of `validate_gtfs_feed_task` of data_manager/tasks.py: the counts of the validator's
-- report and the verdict on the submission.
mod Counts
mod Verdict
pub mod Totals
pub mod Outcomes
mod Examples
pub use Counts.{Notice, Summary, Report, Tally}
unfoldable pub use Counts.{extract_notice_counts, rejection_text, decimal}
pub use Verdict.{ValidationStatus, pending, valid, invalid, error, Validated}
unfoldable pub use Verdict.{
  record_rejection, record_success, reject_submission, accept_submission, conclude,
}
