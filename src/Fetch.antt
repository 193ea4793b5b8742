-- ===== src/Fetch.antt =====
-- `FetchControlMixin` of data_manager/models.py: the fetch state of a proxied feed source and its
-- four transitions. A transition changes the Python object and saves some of its fields, so it acts
-- on a pair: the object in memory and the row that it was loaded from.
-- Times are microseconds since the epoch. `now` is the clock's value, `now or timezone.now()`.
mod Control
pub mod Saved
pub mod Invariant
pub mod Retries
pub mod Race
mod Examples
pub use Control.{
  FetchStatus, active, delayed, auto_paused, manual_paused, status_eq, FetchControl, Source,
  minutes, fetch_retry_delays, retry_delay, pause_reason_chars, new_control,
}
unfoldable pub use Control.{
  mark_fetch_success, mark_fetch_failure, pause_fetch, resume_fetch, fetch_is_due, save_fields,
}
