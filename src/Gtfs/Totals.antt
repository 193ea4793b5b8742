-- ===== src/Gtfs/Totals.antt =====
-- The counts of a report are sums over its notices.
use otwarte_dane_transportow.Common.{
  ℕ, ◌+◌, ◌<◌, ◌≡◌, Bool, true, false, ◌&&◌, List, [], ◌∷◌, if◌then◌else◌, Text, text_eq,
  text_eq_sound, text_eq_refl, non_empty, arith,
}
use otwarte_dane_transportow.Gtfs.Counts.{
  Notice, Report, Tally, first_list, is_error, is_warning, weight, code_of, add_count, count_notice,
  count_notices, no_counts, extract_notice_counts,
}

-- The sum of the weights of the notices that pass a test.
abbrev pub total : (Notice → Bool) → List Notice → ℕ
total p [] = 0
total p (n ∷ ns) = (if p n then weight n else 0) + total p ns

-- An error with this code.
abbrev pub has_code : Text → Notice → Bool
has_code c n = is_error n && text_eq (code_of n) c

-- A notice is counted as a warning only if it is no error.
abbrev pub only_warning : Notice → Bool
only_warning n = if is_error n then false else is_warning n

-- The count under a code, 0 if there is none.
abbrev pub count_of : Text → List (Text × ℕ) → ℕ
count_of c [] = 0
count_of c ((d, n) ∷ counts) = if text_eq d c then n else count_of c counts

count_of-add_count :
    (c d : Text) (k : ℕ) (counts : List (Text × ℕ))
    → count_of c (add_count d k counts) ≡ count_of c counts + (if text_eq d c then k else 0)
unfolding add_count
count_of-add_count c d k [] = ground arith
count_of-add_count c d k ((e, n) ∷ counts) = ground (
  arith,
  count_of-add_count c d k counts,
  text_eq_sound e d,
  text_eq_sound e c,
  text_eq_sound d c,
  text_eq_refl c,
  text_eq_refl d,
)

count_notice-counts :
    (n : Notice) (t : Tally)
    → ((count_notice n t).error_count ≡ t.error_count + (if is_error n then weight n else 0))
      × ((count_notice n t).warning_count
          ≡ t.warning_count + (if only_warning n then weight n else 0))
unfolding count_notice
count_notice-counts n t = ground arith

count_notice-codes :
    (n : Notice) (t : Tally) (c : Text)
    → non_empty c ≡ true
    → count_of c (count_notice n t).error_code_counts
      ≡ count_of c t.error_code_counts + (if has_code c n then weight n else 0)
unfolding count_notice
count_notice-codes n t c h = ground (
  arith,
  count_of-add_count c (code_of n) (weight n) t.error_code_counts,
  text_eq_sound (code_of n) c,
)

count_notices-counts :
    (ns : List Notice) (t : Tally)
    → ((count_notices ns t).error_count ≡ t.error_count + total is_error ns)
      × ((count_notices ns t).warning_count ≡ t.warning_count + total only_warning ns)
unfolding count_notices
count_notices-counts [] t = (omega arith, omega arith)
count_notices-counts (n ∷ ns) t =
    let (e, w) = count_notices-counts ns (count_notice n t) in
    (omega (arith, e, (count_notice-counts n t).0), omega (arith, w, (count_notice-counts n t).1))

count_notices-codes :
    (ns : List Notice) (t : Tally) (c : Text)
    → non_empty c ≡ true
    → count_of c (count_notices ns t).error_code_counts
      ≡ count_of c t.error_code_counts + total (has_code c) ns
unfolding count_notices
count_notices-codes [] t c h = omega arith
count_notices-codes (n ∷ ns) t c h =
    omega (arith, count_notices-codes ns (count_notice n t) c h, count_notice-codes n t c h)

-- The counts of a report that lists an error or a warning are sums over the notices of its first
-- list, each weighing its total, or one if that is less: of the errors, of the warnings that are no
-- errors, and, for each non-empty code, of the errors with that code.
pub extract_notice_counts_lem :
    (r : Report)
    → let ns = first_list r.candidates in
      0 < total is_error ns + total only_warning ns
      → let t = extract_notice_counts r in
        (t.error_count ≡ total is_error ns)
        × (t.warning_count ≡ total only_warning ns)
        × ((c : Text) → non_empty c ≡ true → count_of c t.error_code_counts ≡ total (has_code c) ns)
unfolding extract_notice_counts
extract_notice_counts_lem r h =
    let ns = first_list r.candidates in
    let (e, w) = count_notices-counts ns no_counts in
    (
      ground (arith, e, w),
      ground (arith, e, w),
      λ c k. ground (arith, e, w, count_notices-codes ns no_counts c k),
    )
