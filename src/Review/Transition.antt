-- ===== src/Review/Transition.antt =====
-- `_apply_stage_transition` of data_manager/api/views.py.
use otwarte_dane_transportow.Common.{
  ℕ, Bool, false, Option, none, some, List, [], ◌==◌, if◌then◌else◌, Text, non_empty,
}
use otwarte_dane_transportow.History.{
  Table, HistoryRow, rejected, completed, stage_advanced, create, current_stage,
}
use otwarte_dane_transportow.Review.Answers.{Outcome, done, server_error, ◌>>=◌}
use otwarte_dane_transportow.Review.StageValue.{RawStage, validate_stage_value, strip}

-- `request.data.get('rejection_cause')`: absent or otherwise false, a text, or a true value that is
-- no text and has no `strip`.
pub data RawCause : Type 0 where
  falsy : RawCause
  text : Text → RawCause
  truthy : RawCause

-- The fields of the body that the review reads.
pub record Patch : Type 0 where
  pub stage : RawStage
  pub rejection_cause : RawCause

-- `(request.data.get('rejection_cause') or '').strip()`
unfoldable pub cause_value : RawCause → Outcome Text
cause_value falsy = done []
cause_value (text s) = done (strip s)
cause_value truthy = server_error

-- What the transition leaves: the table, and whether `on_publish` was called.
pub record Moved : Type 0 where
  pub table : Table
  pub published : Bool

-- The transition once both fields are read: `prefetched` are the rows that the submission's object
-- holds, and the new row is made `elapsed` after the last one.
unfoldable pub transition : ℕ → Option (List HistoryRow) → ℕ → Text → Option ℕ → Table → Moved
transition actor prefetched elapsed cause desired t =
    let current = current_stage prefetched t in
    if non_empty cause
    then record {
      table =
          create
            (record {
              event_type = rejected;
              stage_before = current;
              stage_after = 1;
              actor = some actor;
              cause = cause;
              reasons = none;
            })
            elapsed t;
      published = false;
    }
    else elim desired [
      | none ↦ record { table = t; published = false }
      | some stage ↦ if stage == current then record { table = t; published = false } else record {
        table =
            create
              (record {
                event_type = if stage == 4 then completed else stage_advanced;
                stage_before = current;
                stage_after = stage;
                actor = some actor;
                cause = [];
                reasons = none;
              })
              elapsed t;
        published = stage == 4;
      }
    ]

unfoldable pub apply_stage_transition :
    ℕ → Option (List HistoryRow) → ℕ → Patch → Table → Outcome Moved
unfolding cause_value transition
apply_stage_transition actor prefetched elapsed p t = do
  cause ← cause_value p.rejection_cause
  desired ← validate_stage_value p.stage
  done (transition actor prefetched elapsed cause desired t)
