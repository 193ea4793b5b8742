-- ===== src/History/Order.antt =====
-- The order of the rows: the row made last is the latest entry.
use otwarte_dane_transportow.Common.{
  ℕ, ◌+◌, ◌≤◌, ◌<◌, ◌≡◌, refl, false, none, some, List, [], ◌∷◌, All, Bool-cases, inl, inr, arith,
}
use otwarte_dane_transportow.History.Rows.{
  HistoryRow, Table, NewRow, row_of, create, newer, insert_row, ordered, first,
  latest_history_entry, new_table,
}

pub All-mono {ℓ κ} :
    {A : Type ℓ} (P Q : A → Type κ) (xs : List A) → ((a : A) → P a → Q a) → All P xs → All Q xs
All-mono P Q [] f h = tt
All-mono P Q (x ∷ xs) f h = (f x h.0, All-mono P Q xs f h.1)

module _ (P : HistoryRow → Type 0) where
  pub All-insert_row :
      (r : HistoryRow) (xs : List HistoryRow) → P r → All P xs → All P (insert_row r xs)
  unfolding insert_row
  All-insert_row r [] p h = (p, tt)
  All-insert_row r (x ∷ xs) p h = elim (Bool-cases (newer x r)) [
    | inl later ↦ rw later (h.0, All-insert_row r xs p h.1)
    | inr not_later ↦ rw not_later (p, h)
  ]

  pub All-ordered : (xs : List HistoryRow) → All P xs → All P (ordered xs)
  unfolding ordered
  All-ordered [] h = tt
  All-ordered (r ∷ rs) h = All-insert_row r (ordered rs) h.0 (All-ordered rs h.1)

-- Every row is older than the next one will be.
abbrev pub IsOld : ℕ → ℕ → HistoryRow → Type 0
IsOld next_id clock r = (r.id < next_id) × (r.created_at ≤ clock)

abbrev pub IsStamped : Table → Type 0
IsStamped t = All (IsOld t.next_id t.clock) t.rows

pub new_table-IsStamped : IsStamped new_table
new_table-IsStamped = tt

pub create-IsStamped :
    (n : NewRow) (elapsed : ℕ) (t : Table) → IsStamped t → IsStamped (create n elapsed t)
unfolding create
create-IsStamped n elapsed t h =
    ((omega arith, omega arith), All-mono _ _ t.rows (λ r old. omega arith) h)

newer-old : (r x : HistoryRow) → IsOld r.id r.created_at x → newer x r ≡ false
unfolding newer
newer-old r x h = ground arith

pub first-insert_old :
    (r : HistoryRow) (xs : List HistoryRow)
    → All (IsOld r.id r.created_at) xs
    → first (insert_row r xs) ≡ some r
unfolding insert_row first
first-insert_old r [] h = refl
first-insert_old r (x ∷ xs) h = rw (newer-old r x h.0)

-- The row that is made last is the latest entry, also where rows share their time of creation.
pub latest_history_entry-create :
    (n : NewRow) (elapsed : ℕ) (t : Table)
    → IsStamped t
    → latest_history_entry none (create n elapsed t) ≡ some (row_of n t.next_id (t.clock + elapsed))
unfolding latest_history_entry create ordered
latest_history_entry-create n elapsed t h =
    first-insert_old _ (ordered t.rows)
      (All-ordered _ t.rows (All-mono _ _ t.rows (λ r old. (old.0, omega (arith, old.1))) h))
