-- ===== src/History.antt =====
-- The audit trail of a submission, `FeedSubmissionHistory` and `RealtimeSubmissionHistory` of
-- data_manager/models.py, and what `FeedSubmission` and `RealtimeSubmission` read from it.
-- The two history models have one shape; only a realtime row has `reasons`. A table is the rows of
-- one submission. Rows are stamped by a clock that does not go back: a new row is made some time,
-- maybe none, after the row before it.
mod Rows
mod Reasons
pub mod Order
pub mod Published
pub mod Trail
mod Examples
pub use Reasons.{
  Protocol, gtfs_rt, siri, gbfs, EndpointType, trip_update, vehicle_position, service_alert, sx, sm,
  vm, et, gm, gbfs_main, gbfs_versions, system_information, vehicle_types, station_information,
  station_status, free_bike_status, system_hours, system_alerts, Reason, static_submission_missing,
  static_submission_not_published, no_endpoints, endpoint_http_error, endpoint_content_empty,
  endpoint_content_invalid, endpoint_too_large, endpoint_url_blocked, endpoint_timeout,
  endpoint_unreachable, endpoint_fetch_failed, endpoint_cache_failed,
}
pub use Rows.{
  EventType, uploaded, stage_advanced, rejected, completed, is_event, HistoryRow, Table, new_table,
  NewRow, row_of,
}
unfoldable pub use Rows.{
  newer, ordered, first, create, latest_history_entry, current_stage, is_rejected, rejection_cause,
  rejection_reasons, published_at, stage_of, is_rejection, cause_of, reasons_of,
}
