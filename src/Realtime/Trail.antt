-- ===== src/Realtime/Trail.antt =====
-- The history of a realtime submission: the view that creates it records an upload from stage 0 to
-- stage 1, and every later row begins at the stage where the one before it ended.
use otwarte_dane_transportow.Common.{ℕ, ◌+◌, ◌≡◌, refl, true, some, none, List, [], ◌∷◌, All, arith}
use otwarte_dane_transportow.History.{
  Table, HistoryRow, NewRow, uploaded, new_table, row_of, create, ordered, first, current_stage,
  rejection_reasons, reasons_of, latest_history_entry, stage_of, is_rejection,
}
use otwarte_dane_transportow.History.Order.{
  All-mono, All-ordered, IsOld, IsStamped, first-insert_old,
}
use otwarte_dane_transportow.History.Trail.{IsLink, stage}

-- The row of the creation, of `RealtimeSubmissionViewSet.create`.
abbrev pub created_row : ℕ → NewRow
created_row actor = record {
  event_type = uploaded;
  stage_before = 0;
  stage_after = 1;
  actor = some actor;
  cause = [];
  reasons = none;
}

abbrev pub created_table : ℕ → ℕ → Table
created_table actor elapsed = create (created_row actor) elapsed new_table

-- The stage before a row, the first row's being 0.
abbrev pub stage_before_next : List HistoryRow → ℕ
stage_before_next [] = 0
stage_before_next (r ∷ rs) = r.stage_after

abbrev pub IsTrail : List HistoryRow → Type 0
IsTrail [] = Unit
IsTrail (r ∷ rs) = All (IsOld r.id r.created_at) rs × IsLink (stage_before_next rs) r × IsTrail rs

-- There is at least the row of the creation.
abbrev pub IsCreated : List HistoryRow → Type 0
IsCreated [] = ⊥
IsCreated (r ∷ rs) = Unit

pub record IsSound (t : Table) : Type 0 where
  pub stamped : IsStamped t
  pub trail : IsTrail t.rows
  pub created : IsCreated t.rows

first-ordered : (rows : List HistoryRow) → IsTrail rows → first (ordered rows) ≡ first rows
unfolding ordered
first-ordered [] h = refl
first-ordered (r ∷ rs) h = unfold first in first-insert_old r (ordered rs) (All-ordered _ rs h.0)

last_stage :
    (rows : List HistoryRow) → IsCreated rows → stage_of (first rows) ≡ stage_before_next rows
unfolding stage_of first
last_stage [] h = absurd h
last_stage (r ∷ rs) h = refl

pub create-IsSound :
    (n : NewRow) (elapsed : ℕ) (t : Table)
    → IsSound t
    → IsLink (stage t) (row_of n t.next_id (t.clock + elapsed))
    → IsSound (create n elapsed t)
unfolding create
create-IsSound n elapsed t h link = record {
  stamped = (
    (omega arith, omega arith),
    All-mono _ _ t.rows (λ r old. (omega (arith, old.0), omega (arith, old.1))) h.stamped,
  );
  trail = (
    All-mono _ _ t.rows (λ r old. (old.0, omega (arith, old.1))) h.stamped,
    rw⁻¹ (last_stage t.rows h.created) link,
    h.trail,
  );
  created = tt;
}

-- A created submission has a sound history.
pub created_table-IsSound : (actor elapsed : ℕ) → IsSound (created_table actor elapsed)
unfolding create
created_table-IsSound actor elapsed = record {
  stamped = ((omega arith, omega arith), tt);
  trail = (
    tt,
    record {
      before = refl;
      least = omega arith;
      most = omega arith;
      rejects = λ e. absurd cc;
      completes = λ e. absurd cc;
      only_completes = λ e. absurd (omega (arith, e));
    },
    tt,
  );
  created = tt;
}

-- Read over the prefetched rows, the properties of a submission are those of its last row.
module _ (t : Table) (h : IsSound t) where
  pub current_stage-last : current_stage (some (ordered t.rows)) t ≡ stage t
  unfolding current_stage latest_history_entry
  current_stage-last = rw (first-ordered t.rows h.trail)

  pub rejection_reasons-last :
      rejection_reasons (some (ordered t.rows)) t ≡ reasons_of (first t.rows)
  unfolding rejection_reasons latest_history_entry
  rejection_reasons-last = rw (first-ordered t.rows h.trail)

pub rejected-stage : (t : Table) → IsSound t → is_rejection (first t.rows) ≡ true → stage t ≡ 1
unfolding stage_of first is_rejection
rejected-stage t h e = go t.rows h.trail e
  where
    go :
        (rows : List HistoryRow)
        → IsTrail rows
        → is_rejection (first rows) ≡ true
        → stage_of (first rows) ≡ 1
    go [] k e = refl
    go (r ∷ rs) k e = (k.1).rejects (ground arith)
