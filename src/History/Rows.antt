-- ===== src/History/Rows.antt =====
-- data_manager/models.py: the history rows, their order and the submission properties over them.
use otwarte_dane_transportow.Common.{
  ℕ, ◌+◌, Bool, true, false, ◌&&◌, ◌||◌, Option, none, some, List, [], ◌∷◌, ltb, ◌==◌,
  if◌then◌else◌, Text, non_empty, where_,
}
use otwarte_dane_transportow.History.Reasons.{Reason}

pub data EventType : Type 0 where
  uploaded stage_advanced rejected completed : EventType

abbrev pub is_event : EventType → EventType → Bool
is_event uploaded uploaded = true
is_event stage_advanced stage_advanced = true
is_event rejected rejected = true
is_event completed completed = true
is_event _ _ = false

-- `actor` is the user's id; the field `reasons` is none in a static submission's row.
pub record HistoryRow : Type 0 where
  pub id : ℕ
  pub event_type : EventType
  pub stage_before : ℕ
  pub stage_after : ℕ
  pub actor : Option ℕ
  pub cause : Text
  pub reasons : Option (List Reason)
  pub created_at : ℕ

-- The rows of one submission, the next id of the sequence and the time of the last row.
pub record Table : Type 0 where
  pub rows : List HistoryRow
  pub next_id : ℕ
  pub clock : ℕ

abbrev pub new_table : Table
new_table = record { rows = []; next_id = 1; clock = 0 }

-- The arguments of `history_model.objects.create`, without the submission.
pub record NewRow : Type 0 where
  pub event_type : EventType
  pub stage_before : ℕ
  pub stage_after : ℕ
  pub actor : Option ℕ
  pub cause : Text
  pub reasons : Option (List Reason)

abbrev pub row_of : NewRow → ℕ → ℕ → HistoryRow
row_of n id now = record {
  id = id;
  event_type = n.event_type;
  stage_before = n.stage_before;
  stage_after = n.stage_after;
  actor = n.actor;
  cause = n.cause;
  reasons = n.reasons;
  created_at = now;
}

-- `objects.create(…)`, made `elapsed` after the row before it (`auto_now_add`).
unfoldable pub create : NewRow → ℕ → Table → Table
create n elapsed t = record {
  rows = row_of n t.next_id (t.clock + elapsed) ∷ t.rows;
  next_id = t.next_id + 1;
  clock = t.clock + elapsed;
}

-- `Meta.ordering = ['-created_at', '-id']`: does `a` come before `b`?
unfoldable pub newer : HistoryRow → HistoryRow → Bool
newer a b = ltb b.created_at a.created_at || ((a.created_at == b.created_at) && ltb b.id a.id)

unfoldable pub insert_row : HistoryRow → List HistoryRow → List HistoryRow
insert_row r [] = r ∷ []
insert_row r (x ∷ xs) = if newer x r then x ∷ insert_row r xs else r ∷ x ∷ xs

-- The rows as the database returns them in that order.
unfoldable pub ordered : List HistoryRow → List HistoryRow
unfolding insert_row
ordered [] = []
ordered (r ∷ rs) = insert_row r (ordered rs)

unfoldable pub first : List HistoryRow → Option HistoryRow
first [] = none
first (r ∷ rs) = some r

-- `_latest_history_entry`: `rows[0]` of the prefetched rows, or the first row of the query.
unfoldable pub latest_history_entry : Option (List HistoryRow) → Table → Option HistoryRow
latest_history_entry (some rows) t = first rows
latest_history_entry none t = first (ordered t.rows)

unfoldable pub stage_of : Option HistoryRow → ℕ
stage_of none = 1
stage_of (some latest) = latest.stage_after

unfoldable pub current_stage : Option (List HistoryRow) → Table → ℕ
current_stage prefetched t = stage_of (latest_history_entry prefetched t)

unfoldable pub is_rejection : Option HistoryRow → Bool
is_rejection none = false
is_rejection (some latest) = is_event latest.event_type rejected

unfoldable pub is_rejected : Option (List HistoryRow) → Table → Bool
is_rejected prefetched t = is_rejection (latest_history_entry prefetched t)

-- `latest.cause or None`
unfoldable pub cause_of : Option HistoryRow → Option Text
cause_of none = none
cause_of (some latest) =
    if is_event latest.event_type rejected
    then (if non_empty latest.cause then some latest.cause else none)
    else none

unfoldable pub rejection_cause : Option (List HistoryRow) → Table → Option Text
rejection_cause prefetched t = cause_of (latest_history_entry prefetched t)

unfoldable pub reasons_of : Option HistoryRow → Option (List Reason)
reasons_of none = none
reasons_of (some latest) = if is_event latest.event_type rejected then latest.reasons else none

unfoldable pub rejection_reasons : Option (List HistoryRow) → Table → Option (List Reason)
rejection_reasons prefetched t = reasons_of (latest_history_entry prefetched t)

unfoldable pub is_completion : HistoryRow → Bool
is_completion h = is_event h.event_type completed

-- `next((h for h in rows if h.event_type == EVENT_COMPLETED), None)`
unfoldable pub next_completed : List HistoryRow → Option HistoryRow
unfolding is_completion
next_completed [] = none
next_completed (h ∷ hs) = if is_completion h then some h else next_completed hs

unfoldable pub created_at_of : Option HistoryRow → Option ℕ
created_at_of none = none
created_at_of (some h) = some h.created_at

unfoldable pub published_at : Option (List HistoryRow) → Table → Option ℕ
unfolding next_completed is_completion created_at_of
published_at (some rows) t = created_at_of (next_completed rows)
published_at none t = created_at_of (first (ordered (where_ is_completion t.rows)))
