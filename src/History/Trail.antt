-- ===== src/History/Trail.antt =====
-- A history is a trail: every row begins at the stage where the one before it ended.
use otwarte_dane_transportow.Common.{ℕ, ◌+◌, ◌≤◌, ◌≡◌, refl, true, some, List, [], ◌∷◌, All, arith}
use otwarte_dane_transportow.History.Rows.{
  rejected, completed, HistoryRow, Table, NewRow, new_table, row_of, create, ordered, first,
  latest_history_entry, current_stage, is_rejected, rejection_cause, stage_of, is_rejection,
  cause_of,
}
use otwarte_dane_transportow.History.Order.{
  All-mono, All-ordered, IsOld, IsStamped, first-insert_old,
}

-- A row that may follow a stage: stages lie between 1 and 4, a rejection ends at stage 1, and
-- exactly the completions end at stage 4.
pub record IsLink (stage : ℕ) (r : HistoryRow) : Type 0 where
  pub before : r.stage_before ≡ stage
  pub least : 1 ≤ r.stage_after
  pub most : r.stage_after ≤ 4
  pub rejects : r.event_type ≡ rejected → r.stage_after ≡ 1
  pub completes : r.event_type ≡ completed → r.stage_after ≡ 4
  pub only_completes : r.stage_after ≡ 4 → r.event_type ≡ completed

-- The rows in the order of their creation, the last one first.
abbrev pub IsTrail : List HistoryRow → Type 0
IsTrail [] = Unit
IsTrail (r ∷ rs) = All (IsOld r.id r.created_at) rs × IsLink (stage_of (first rs)) r × IsTrail rs

pub record IsSound (t : Table) : Type 0 where
  pub stamped : IsStamped t
  pub trail : IsTrail t.rows

pub new_table-IsSound : IsSound new_table
new_table-IsSound = record { stamped = tt; trail = tt }

-- The stage of a submission.
abbrev pub stage : Table → ℕ
stage t = stage_of (first t.rows)

pub first-ordered : (rows : List HistoryRow) → IsTrail rows → first (ordered rows) ≡ first rows
unfolding ordered
first-ordered [] h = refl
first-ordered (r ∷ rs) h = unfold first in first-insert_old r (ordered rs) (All-ordered _ rs h.0)

pub create-IsSound :
    (n : NewRow) (elapsed : ℕ) (t : Table)
    → IsSound t
    → IsLink (stage t) (row_of n t.next_id (t.clock + elapsed))
    → IsSound (create n elapsed t)
unfolding create
create-IsSound n elapsed t h link = record {
  stamped = (
    (omega arith, omega arith),
    All-mono _ _ t.rows (λ r old. (omega (arith, old.0), omega (arith, old.1))) h.stamped,
  );
  trail = (All-mono _ _ t.rows (λ r old. (old.0, omega (arith, old.1))) h.stamped, link, h.trail);
}

-- Read over the prefetched rows, the properties of a submission are those of its last row.
module _ (t : Table) (h : IsSound t) where
  pub current_stage-last : current_stage (some (ordered t.rows)) t ≡ stage t
  unfolding current_stage latest_history_entry
  current_stage-last = rw (first-ordered t.rows h.trail)

  pub is_rejected-last : is_rejected (some (ordered t.rows)) t ≡ is_rejection (first t.rows)
  unfolding is_rejected latest_history_entry
  is_rejected-last = rw (first-ordered t.rows h.trail)

  pub rejection_cause-last : rejection_cause (some (ordered t.rows)) t ≡ cause_of (first t.rows)
  unfolding rejection_cause latest_history_entry
  rejection_cause-last = rw (first-ordered t.rows h.trail)

-- What a trail says of the stage: it lies between 1 and 4, and a rejected submission is at stage 1.
pub stage_bounds : (t : Table) → IsSound t → (1 ≤ stage t) × (stage t ≤ 4)
unfolding stage_of first
stage_bounds t h = go t.rows h.trail
  where
    go :
        (rows : List HistoryRow)
        → IsTrail rows
        → (1 ≤ stage_of (first rows)) × (stage_of (first rows) ≤ 4)
    go [] k = (omega arith, omega arith)
    go (r ∷ rs) k = ((k.1).least, (k.1).most)

pub rejected-stage : (t : Table) → IsSound t → is_rejection (first t.rows) ≡ true → stage t ≡ 1
unfolding stage_of first is_rejection
rejected-stage t h e = go t.rows h.trail e
  where
    go :
        (rows : List HistoryRow)
        → IsTrail rows
        → is_rejection (first rows) ≡ true
        → stage_of (first rows) ≡ 1
    go [] k e = refl
    go (r ∷ rs) k e = (k.1).rejects (ground arith)
