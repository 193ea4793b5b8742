-- ===== src/Gtfs/Verdict.antt =====
-- The verdicts of `validate_gtfs_feed_task`: `_reject_submission`, and the end of the task. Both
-- read the stage from a row that they have locked, with its history loaded afresh.
use otwarte_dane_transportow.Common.{
  ℕ, Bool, false, Option, none, some, [], ltb, leb, if◌then◌else◌, Text, text_eq,
}
use otwarte_dane_transportow.History.{
  Table, rejected, stage_advanced, create, ordered, current_stage, rejection_cause,
}
use otwarte_dane_transportow.Gtfs.Counts.{Report, extract_notice_counts, rejection_text}

pub data ValidationStatus : Type 0 where
  pending valid invalid error : ValidationStatus

-- The entry's verdict, and the history of its submission.
pub record Validated : Type 0 where
  pub validation_status : ValidationStatus
  pub validation_message : Text
  pub table : Table

abbrev pub is_cause : Option Text → Text → Bool
is_cause none reason = false
is_cause (some cause) reason = text_eq cause reason

-- The locked block of `_reject_submission`.
unfoldable pub record_rejection : Text → ℕ → Table → Table
record_rejection reason elapsed t =
    let rows = some (ordered t.rows) in
    let stage = current_stage rows t in
    if leb 4 stage
    then t
    else if is_cause (rejection_cause rows t) reason
    then t
    else create
        (record {
          event_type = rejected;
          stage_before = stage;
          stage_after = 1;
          actor = none;
          cause = reason;
          reasons = none;
        })
        elapsed t

unfoldable pub reject_submission : Text → Bool → ℕ → Validated → Validated
unfolding record_rejection
reject_submission reason validation_error elapsed v = record {
  validation_status = if validation_error then error else invalid;
  validation_message = reason;
  table = record_rejection reason elapsed v.table;
}

-- The locked block after a report without errors.
unfoldable pub record_success : ℕ → Table → Table
record_success elapsed t =
    let stage = current_stage (some (ordered t.rows)) t in
    if ltb stage 3
    then create
        (record {
          event_type = stage_advanced;
          stage_before = stage;
          stage_after = 3;
          actor = none;
          cause = [];
          reasons = none;
        })
        elapsed t
    else t

unfoldable pub accept_submission : ℕ → Validated → Validated
unfolding record_success
accept_submission elapsed v = record {
  validation_status = valid;
  validation_message = [];
  table = record_success elapsed v.table;
}

-- "Update Submission Stage", from the parsed report.
unfoldable pub conclude : Report → ℕ → Validated → Validated
unfolding reject_submission accept_submission
conclude r elapsed v =
    let t = extract_notice_counts r in
    if ltb 0 t.error_count
    then reject_submission (rejection_text t) false elapsed v
    else accept_submission elapsed v
