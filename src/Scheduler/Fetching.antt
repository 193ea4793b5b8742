-- ===== src/Scheduler/Fetching.antt =====
-- `_fetch_static_entry` and `_fetch_realtime_endpoint_rt`. The download is what `safe_download`
-- yielded, and the text of an exception is a parameter, as is what the storage, the database and the
-- broker make of the writes of a static fetch. Of a realtime fetch, and of the record of an error, the
-- writes are those that do not raise.
use otwarte_dane_transportow.Common.{
  ℕ, ◌+◌, Bool, ◌&&◌, Option, none, some, List, ◌∷◌, leb, if◌then◌else◌, Text, non_empty,
}
use otwarte_dane_transportow.History.{EndpointType, Protocol}
use otwarte_dane_transportow.Fetch.{Source, mark_fetch_success, mark_fetch_failure}
use otwarte_dane_transportow.Net.Failures.{
  Exception, Attempt, returned, raised, ◌>>=◌, outbound_url_blocked, response_too_large, timeout,
  connect_timeout, connection_error, ssl_error, http_error, empty_feed_content,
  invalid_feed_content, value_error, other_exception,
}
use otwarte_dane_transportow.Content.Checks.{
  DataType, Parsers, validate_static_feed_stream, validate_realtime_feed_stream,
}
use otwarte_dane_transportow.Scheduler.EntityTypes.{Types, record_entity_types}

pub data FetchOutcome : Type 0 where
  fetch_ok fetch_transient fetch_permanent : FetchOutcome

-- The kinds of `FeedFetchError` that a fetch records.
pub data ErrorType : Type 0 where
  error_http error_timeout error_connection error_invalid_content : ErrorType

pub record FeedFetchError : Type 0 where
  pub error_type : ErrorType
  pub http_status_code : Option ℕ
  pub message : Text
  pub url_attempted : Text

-- A `StaticFeedEntry` or a `RealtimeEndpointRT`, with its fetch errors, the last one first, and the
-- number of GTFS validations queued for it. `cached_file` is the content of the file.
pub record Feed : Type 0 where
  pub url : Text
  pub hide_original : Bool
  pub control : Source
  pub cached_file : Option Text
  pub cached_at : Option ℕ
  pub types : Types
  pub errors : List FeedFetchError
  pub validations : ℕ

-- `StaticFeedEntry.is_proxy_managed` and `RealtimeEndpointRT.is_proxy_managed`
unfoldable pub entry_is_proxy_managed : Feed → Bool
entry_is_proxy_managed f = non_empty f.url && f.hide_original

unfoldable pub endpoint_is_proxy_managed : Feed → Bool
endpoint_is_proxy_managed f = f.hide_original

pub record Downloaded : Type 0 where
  pub status_code : ℕ
  pub body : Text

-- `response.raise_for_status()`
unfoldable pub raise_for_status : ℕ → Attempt {0} Unit
raise_for_status status =
    if leb 400 status && leb status 599 then raised (http_error (some status)) else returned tt

-- The `except` clauses: what is recorded, and the code that is returned.
pub record Handled : Type 0 where
  pub error_type : ErrorType
  pub http_code : Option ℕ
  pub outcome : FetchOutcome

-- `FETCH_TRANSIENT if (code and code >= 500) else FETCH_PERMANENT`
abbrev pub outcome_of_status : Option ℕ → FetchOutcome
outcome_of_status none = fetch_permanent
outcome_of_status (some code) = if leb 500 code then fetch_transient else fetch_permanent

abbrev pub invalid_content : Handled
invalid_content = record {
  error_type = error_invalid_content;
  http_code = none;
  outcome = fetch_permanent;
}

unfoldable pub handled : Exception → Handled
handled outbound_url_blocked = invalid_content
handled (response_too_large max_bytes) = invalid_content
handled empty_feed_content = invalid_content
handled invalid_feed_content = invalid_content
handled timeout = record { error_type = error_timeout; http_code = none; outcome = fetch_transient }
handled connect_timeout = record {
  error_type = error_timeout;
  http_code = none;
  outcome = fetch_transient;
}
handled (http_error code) = record {
  error_type = error_http;
  http_code = code;
  outcome = outcome_of_status code;
}
handled connection_error = record {
  error_type = error_connection;
  http_code = none;
  outcome = fetch_transient;
}
handled (ssl_error verify_failed) = record {
  error_type = error_connection;
  http_code = none;
  outcome = fetch_transient;
}
handled value_error = invalid_content
handled other_exception = invalid_content

-- The `try` block up to the file's name.
unfoldable pub static_body : DataType → Attempt Downloaded → Attempt Text
unfolding raise_for_status validate_static_feed_stream
static_body data_type download = do
  d ← download
  accepted ← raise_for_status d.status_code
  valid ← validate_static_feed_stream data_type d.body
  returned d.body

unfoldable pub realtime_body :
    Parsers → Protocol → Attempt Downloaded → Attempt (Text × List EndpointType)
unfolding raise_for_status validate_realtime_feed_stream
realtime_body p protocol download = do
  d ← download
  accepted ← raise_for_status d.status_code
  types ← validate_realtime_feed_stream p protocol d.body
  returned (d.body, types)

-- How the writes after a body that passed the checks go: what each of them raises, if anything.
-- `in_place` says whether the copy has the name of the one before, so that its file is written over,
-- and `torn` is the content of that file after a save that raised.
pub record Writes : Type 0 where
  pub in_place : Bool
  pub save : Option Exception
  pub torn : Option Text
  pub update_row : Option Exception
  pub delete_stale : Option Exception
  pub mark_success : Option Exception
  pub delay : Option Exception

module _ (str : Exception → Text) where
  -- `_log_static_error` and `_log_endpoint_rt_error`, at `now`.
  unfoldable pub log_error : ErrorType → Exception → Option ℕ → ℕ → Feed → Feed
  log_error error_type e http_code now f = record f {
    errors =
        record {
          error_type = error_type;
          http_status_code = http_code;
          message = str e;
          url_attempted = f.url;
        }
        ∷ f.errors;
    control = mark_fetch_failure (str e) now f.control;
  }

  abbrev pub fail_with : Exception → ℕ → Feed → FetchOutcome × Feed
  fail_with e now f = let h = handled e in (h.outcome, log_error h.error_type e h.http_code now f)

  -- The cached copy and the state of a source after a body that passed the checks.
  unfoldable pub store : Text → ℕ → Feed → Feed
  store body now f = record f {
    cached_file = some body;
    cached_at = some now;
    control = mark_fetch_success now f.control;
  }

  -- Goes on after a write, or records what it raised, over what the writes so far left.
  abbrev pub after_write : Option Exception → ℕ → Feed → FetchOutcome × Feed → FetchOutcome × Feed
  after_write none failed_at left rest = rest
  after_write (some e) failed_at left rest = fail_with e failed_at left

  -- The file in place of the copy, the row of which is not written yet.
  abbrev pub over_copy : Writes → Option Text → Feed → Feed
  over_copy w content f = if w.in_place then record f { cached_file = content } else f

  abbrev pub with_copy : Text → ℕ → Feed → Feed
  with_copy body now f = record f { cached_file = some body; cached_at = some now }

  -- `mark_fetch_success` whose save raised: the object is changed and the row is not.
  abbrev pub marked_object : ℕ → Source → Source
  marked_object now c = record (mark_fetch_success now c) { row = c.row }

  -- The writes of the `try` block in their order, up to the message for the validation.
  unfoldable pub written_static : Writes → Text → ℕ → ℕ → Feed → FetchOutcome × Feed
  unfolding store log_error handled
  written_static w body now failed_at f =
      let kept = with_copy body now f in
      let stored = store body now f in
      after_write w.save failed_at (over_copy w w.torn f) (
        after_write w.update_row failed_at (over_copy w (some body) f) (
          after_write w.delete_stale failed_at kept (
            after_write w.mark_success failed_at
              (record kept { control = marked_object now f.control })
              (after_write w.delay failed_at stored
                (fetch_ok, record stored { validations = f.validations + 1 })))))

  unfoldable pub stored_static : Writes → Attempt Text → ℕ → ℕ → Feed → FetchOutcome × Feed
  unfolding written_static log_error handled
  stored_static w (raised e) now failed_at f = fail_with e failed_at f
  stored_static w (returned body) now failed_at f = written_static w body now failed_at f

  unfoldable pub fetch_static_entry :
      Writes → DataType → Attempt Downloaded → ℕ → ℕ → Feed → FetchOutcome × Feed
  unfolding stored_static static_body entry_is_proxy_managed
  fetch_static_entry w data_type download now failed_at f =
      if entry_is_proxy_managed f
      then stored_static w (static_body data_type download) now failed_at f
      else (fetch_permanent, f)

  unfoldable pub stored_realtime :
      Attempt (Text × List EndpointType) → ℕ → ℕ → Feed → FetchOutcome × Feed
  unfolding store log_error handled
  stored_realtime (raised e) now failed_at f = fail_with e failed_at f
  stored_realtime (returned (body, types)) now failed_at f =
      (fetch_ok, record (store body now f) { types = record_entity_types types f.types })

  unfoldable pub fetch_realtime_endpoint_rt :
      Parsers → Protocol → Attempt Downloaded → ℕ → ℕ → Feed → FetchOutcome × Feed
  unfolding stored_realtime realtime_body endpoint_is_proxy_managed
  fetch_realtime_endpoint_rt p protocol download now failed_at f =
      if endpoint_is_proxy_managed f
      then stored_realtime (realtime_body p protocol download) now failed_at f
      else (fetch_permanent, f)
