-- ===== src/Fetch/Control.antt =====
-- data_manager/models.py, lines 16-118: the states, the retry delays and the transitions.
use otwarte_dane_transportow.Common.{
  ℕ, zero, suc, ◌+◌, ◌-◌, ◌*◌, Bool, true, false, Option, none, some, List, [], ◌∷◌, leb,
  if◌then◌else◌, length, take, Text,
}

pub data FetchStatus : Type 0 where
  active delayed auto_paused manual_paused : FetchStatus

abbrev pub status_eq : FetchStatus → FetchStatus → Bool
status_eq active active = true
status_eq delayed delayed = true
status_eq auto_paused auto_paused = true
status_eq manual_paused manual_paused = true
status_eq _ _ = false

-- `timedelta(minutes=n)`
abbrev pub minutes : ℕ → ℕ
minutes n = n * 60000000

abbrev pub fetch_retry_delays : List ℕ
fetch_retry_delays = minutes 5 ∷ minutes 60 ∷ minutes 360 ∷ []

-- `FETCH_RETRY_DELAYS[i]`; the code only reads it at an index of the list.
abbrev pub retry_delay : List ℕ → ℕ → ℕ
retry_delay [] i = 0
retry_delay (d ∷ ds) zero = d
retry_delay (d ∷ ds) (suc i) = retry_delay ds i

-- `[:500]`
abbrev pub pause_reason_chars : ℕ
pause_reason_chars = 500

-- The fields that the mixin reads and writes, with the columns' types.
pub record FetchControl : Type 0 where
  pub fetch_status : FetchStatus
  pub fetch_failure_count : ℕ
  pub next_fetch_after : Option ℕ
  pub fetch_paused_at : Option ℕ
  pub fetch_pause_reason : Text
  pub last_fetch_success_at : Option ℕ
  pub last_fetch_error_at : Option ℕ

-- The columns' defaults.
abbrev pub new_control : FetchControl
new_control = record {
  fetch_status = active;
  fetch_failure_count = 0;
  next_fetch_after = none;
  fetch_paused_at = none;
  fetch_pause_reason = [];
  last_fetch_success_at = none;
  last_fetch_error_at = none;
}

-- A model object and its row in the database.
pub record Source : Type 0 where
  pub object : FetchControl
  pub row : FetchControl

pub data Field : Type 0 where
  status failure_count next_after paused_at pause_reason success_at error_at : Field

save_field : Field → FetchControl → FetchControl → FetchControl
save_field status o r = record r { fetch_status = o.fetch_status }
save_field failure_count o r = record r { fetch_failure_count = o.fetch_failure_count }
save_field next_after o r = record r { next_fetch_after = o.next_fetch_after }
save_field paused_at o r = record r { fetch_paused_at = o.fetch_paused_at }
save_field pause_reason o r = record r { fetch_pause_reason = o.fetch_pause_reason }
save_field success_at o r = record r { last_fetch_success_at = o.last_fetch_success_at }
save_field error_at o r = record r { last_fetch_error_at = o.last_fetch_error_at }

-- `self.save(update_fields=[…])`: the row takes the listed fields of the object.
unfoldable pub save_fields : List Field → FetchControl → FetchControl → FetchControl
unfolding save_field
save_fields [] o r = r
save_fields (f ∷ fs) o r = save_fields fs o (save_field f o r)

unfoldable pub mark_fetch_success : ℕ → Source → Source
unfolding save_fields
mark_fetch_success now s =
    let o = record s.object {
      fetch_status = active;
      fetch_failure_count = 0;
      next_fetch_after = none;
      fetch_paused_at = none;
      fetch_pause_reason = [];
      last_fetch_success_at = some now;
    } in
    record {
      object = o;
      row =
          save_fields
            (status ∷ failure_count ∷ next_after ∷ paused_at ∷ pause_reason ∷ success_at ∷ []) o
            s.row;
    }

-- The object after `mark_fetch_failure`.
failed : Text → ℕ → FetchControl → FetchControl
failed reason now o =
    let count = o.fetch_failure_count + 1 in
    let o' = record o {
      fetch_failure_count = count;
      last_fetch_error_at = some now;
      fetch_pause_reason = take pause_reason_chars reason;
      fetch_paused_at = some now;
    } in
    if leb count (length fetch_retry_delays)
    then record o' {
      fetch_status = delayed;
      next_fetch_after = some (now + retry_delay fetch_retry_delays (count - 1));
    }
    else record o' { fetch_status = auto_paused; next_fetch_after = none }

unfoldable pub mark_fetch_failure : Text → ℕ → Source → Source
unfolding save_fields failed
mark_fetch_failure reason now s =
    let o = failed reason now s.object in
    record {
      object = o;
      row =
          save_fields
            (status ∷ failure_count ∷ next_after ∷ paused_at ∷ pause_reason ∷ error_at ∷ []) o
            s.row;
    }

unfoldable pub pause_fetch : Text → ℕ → Source → Source
unfolding save_fields
pause_fetch reason now s =
    let o = record s.object {
      fetch_status = manual_paused;
      next_fetch_after = none;
      fetch_paused_at = some now;
      fetch_pause_reason = take pause_reason_chars reason;
    } in
    record {
      object = o;
      row = save_fields (status ∷ next_after ∷ paused_at ∷ pause_reason ∷ []) o s.row;
    }

-- Its `now` is not read.
unfoldable pub resume_fetch : Source → Source
unfolding save_fields
resume_fetch s =
    let o = record s.object {
      fetch_status = active;
      fetch_failure_count = 0;
      next_fetch_after = none;
      fetch_paused_at = none;
      fetch_pause_reason = [];
    } in
    record {
      object = o;
      row =
          save_fields (status ∷ failure_count ∷ next_after ∷ paused_at ∷ pause_reason ∷ []) o s.row;
    }

unfoldable pub fetch_is_due : ℕ → FetchControl → Bool
fetch_is_due now c =
    if status_eq c.fetch_status active
    then true
    else if status_eq c.fetch_status delayed
    then elim c.next_fetch_after [ none ↦ false | some t ↦ leb t now ]
    else false
