-- ===== src/History/Published.antt =====
-- The properties over prefetched rows agree with the queries that they replace.
use otwarte_dane_transportow.Common.{
  ◌≡◌, refl, ap, true, false, Option, none, some, List, [], ◌∷◌, All, where_, if◌then◌else◌,
  Bool-cases, inl, inr, arith,
}
use otwarte_dane_transportow.History.Rows.{
  HistoryRow, Table, newer, insert_row, ordered, first, is_completion, next_completed,
  created_at_of, published_at,
}
use otwarte_dane_transportow.History.Order.{All-mono, All-insert_row}

-- No row is newer than one before it.
abbrev pub IsNewestFirst : List HistoryRow → Type 0
IsNewestFirst [] = Unit
IsNewestFirst (r ∷ rs) = All (λ x. newer x r ≡ false) rs × IsNewestFirst rs

newer_asym : (a b : HistoryRow) → newer a b ≡ true → newer b a ≡ false
unfolding newer
newer_asym a b h = ground arith

not_newer_trans : (a b c : HistoryRow) → newer b a ≡ false → newer c b ≡ false → newer c a ≡ false
unfolding newer
not_newer_trans a b c h k = ground arith

newer_trans :
    (a b c : HistoryRow)
    → newer a b ≡ false
    → newer b c ≡ true
    → newer b a ≡ false
    → newer a c ≡ true
unfolding newer
newer_trans a b c h k l = ground arith

insert_row-IsNewestFirst :
    (r : HistoryRow) (xs : List HistoryRow) → IsNewestFirst xs → IsNewestFirst (insert_row r xs)
unfolding insert_row
insert_row-IsNewestFirst r [] h = (tt, tt)
insert_row-IsNewestFirst r (x ∷ xs) h = elim (Bool-cases (newer x r)) [
  | inl later ↦ rw later (
    All-insert_row (λ y. newer y x ≡ false) r xs (newer_asym x r later) h.0,
    insert_row-IsNewestFirst r xs h.1,
  )
  | inr not_later ↦
      rw not_later ((not_later, All-mono _ _ xs (λ y k. not_newer_trans r x y not_later k) h.0), h)
]

pub ordered-IsNewestFirst : (xs : List HistoryRow) → IsNewestFirst (ordered xs)
unfolding ordered
ordered-IsNewestFirst [] = tt
ordered-IsNewestFirst (r ∷ rs) = insert_row-IsNewestFirst r (ordered rs) (ordered-IsNewestFirst rs)

-- The newer of a row and another, if there is one.
abbrev pick : HistoryRow → Option HistoryRow → Option HistoryRow
pick r none = some r
pick r (some c) = if newer c r then some c else some r

first-insert_row :
    (r : HistoryRow) (xs : List HistoryRow) → first (insert_row r xs) ≡ pick r (first xs)
unfolding first insert_row
first-insert_row r [] = refl
first-insert_row r (x ∷ xs) = ground arith

pick-next_completed :
    (r : HistoryRow) (xs : List HistoryRow)
    → All (λ y. newer y r ≡ false) xs
    → pick r (next_completed xs) ≡ some r
unfolding next_completed
pick-next_completed r [] h = refl
pick-next_completed r (x ∷ xs) h = ground (arith, pick-next_completed r xs h.1)

next_completed-insert_row :
    (r : HistoryRow) (xs : List HistoryRow)
    → IsNewestFirst xs
    → next_completed (insert_row r xs)
      ≡ (if is_completion r then pick r (next_completed xs) else next_completed xs)
unfolding next_completed insert_row
next_completed-insert_row r [] h = refl
next_completed-insert_row r (x ∷ xs) h = elim (Bool-cases (newer x r)) [
  | inl later ↦ rw later (ground (arith, next_completed-insert_row r xs h.1))
  | inr not_later ↦
      let none_newer : All (λ y. newer y r ≡ false) xs =
        All-mono _ _ xs (λ y k. not_newer_trans r x y not_later k) h.0 in
      rw not_later (ground (arith, pick-next_completed r xs none_newer))
]

next_completed-ordered :
    (rows : List HistoryRow)
    → next_completed (ordered rows) ≡ first (ordered (where_ is_completion rows))
unfolding ordered
next_completed-ordered [] = unfold next_completed first in refl
next_completed-ordered (r ∷ rs) = elim (Bool-cases (is_completion r)) [
  | inl done ↦
      rw (next_completed-insert_row r (ordered rs) (ordered-IsNewestFirst rs), done)
        (rw (first-insert_row, next_completed-ordered rs) refl)
  | inr open_ ↦
      rw (next_completed-insert_row r (ordered rs) (ordered-IsNewestFirst rs), open_)
        (next_completed-ordered rs)
]

-- The time of publication found in the rows prefetched from the table, in their order, is that of
-- the query for the newest completed row.
pub published_at-prefetched :
    (t : Table) → published_at (some (ordered t.rows)) t ≡ published_at none t
unfolding published_at
published_at-prefetched t = ap created_at_of (next_completed-ordered t.rows)
