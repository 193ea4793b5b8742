-- ===== src/Gtfs/Counts.antt =====
-- `extract_notice_counts` of data_manager/tasks.py and the rejection text made of its counts. The
-- report is read as the validator documents it: a notice has a text for its severity and its code,
-- and a count; a field that is absent is none.
use otwarte_dane_transportow.Common.{
  ℕ, zero, suc, ◌+◌, ◌-◌, ◌/◌, ◌%◌, Bool, true, false, ◌&&◌, ◌||◌, Option, none, some, List, [],
  ◌∷◌, ◌++◌, ltb, leb, ◌==◌, if◌then◌else◌, Text, text_eq, non_empty,
}
use otwarte_dane_transportow.Review.StageValue.{strip}

pub record Notice : Type 0 where
  pub severity : Text
  pub total_notices : Option ℕ
  pub code : Text

-- The counts of `summary`, under the three names that each may have.
pub record Summary : Type 0 where
  pub error_names : List (Option ℕ)
  pub warning_names : List (Option ℕ)

-- `candidates`: the lists under the four names for notices, in their order.
pub record Report : Type 0 where
  pub summary : Summary
  pub candidates : List (Option (List Notice))

pub record Tally : Type 0 where
  pub error_count : ℕ
  pub warning_count : ℕ
  pub error_code_counts : List (Text × ℕ)

-- `a or b or c or 0`
unfoldable pub first_count : List (Option ℕ) → ℕ
first_count [] = 0
first_count (none ∷ ns) = first_count ns
first_count (some zero ∷ ns) = first_count ns
first_count (some (suc n) ∷ ns) = suc n

-- `candidates[0] if candidates else []`
unfoldable pub first_list : List (Option (List Notice)) → List Notice
first_list [] = []
first_list (none ∷ cs) = first_list cs
first_list (some ns ∷ cs) = ns

-- `str.upper`, as far as it bears on a comparison with ERROR or WARNING: the ASCII letters, and the
-- two other letters whose capital is one of ASCII.
unfoldable pub upper : Text → Text
upper [] = []
upper (c ∷ s) =
    (if leb b'a' c && leb c b'z'
      then c - 32
      else if c == 305
      then 73
      else if c == 383
      then 83
      else c)
    ∷ upper s

abbrev pub error_word : Text
error_word = 69 ∷ 82 ∷ 82 ∷ 79 ∷ 82 ∷ []

abbrev pub warning_word : Text
warning_word = 87 ∷ 65 ∷ 82 ∷ 78 ∷ 73 ∷ 78 ∷ 71 ∷ []

unfoldable pub is_error : Notice → Bool
unfolding upper
is_error n = text_eq (upper n.severity) error_word

unfoldable pub is_warning : Notice → Bool
unfolding upper
is_warning n = text_eq (upper n.severity) warning_word

-- `max(1, int(notice.get('totalNotices', 0) or 0))`
unfoldable pub weight : Notice → ℕ
weight n = elim n.total_notices [ none ↦ 1 | some t ↦ if ltb t 1 then 1 else t ]

unfoldable pub code_of : Notice → Text
code_of n = strip n.code

-- `counts[code] = counts.get(code, 0) + k`
unfoldable pub add_count : Text → ℕ → List (Text × ℕ) → List (Text × ℕ)
add_count code k [] = (code, k) ∷ []
add_count code k ((c, n) ∷ counts) =
    if text_eq c code then (c, n + k) ∷ counts else (c, n) ∷ add_count code k counts

unfoldable pub count_notice : Notice → Tally → Tally
count_notice n t =
    if is_error n
    then record t {
      error_count = t.error_count + weight n;
      error_code_counts =
          if non_empty (code_of n)
          then add_count (code_of n) (weight n) t.error_code_counts
          else t.error_code_counts;
    }
    else if is_warning n
    then record t { warning_count = t.warning_count + weight n }
    else t

unfoldable pub count_notices : List Notice → Tally → Tally
unfolding count_notice is_error is_warning weight code_of add_count
count_notices [] t = t
count_notices (n ∷ ns) t = count_notices ns (count_notice n t)

abbrev pub no_counts : Tally
no_counts = record { error_count = 0; warning_count = 0; error_code_counts = [] }

unfoldable pub extract_notice_counts : Report → Tally
unfolding count_notices first_list first_count
extract_notice_counts r =
    let t = count_notices (first_list r.candidates) no_counts in
    if (t.error_count == 0) && (t.warning_count == 0)
    then record t {
      error_count = first_count r.summary.error_names;
      warning_count = first_count r.summary.warning_names;
    }
    else t

-- The decimal digits of a number: enough rounds are as many as the number.
unfoldable pub decimal_rounds : ℕ → ℕ → Text → Text
decimal_rounds zero n acc = acc
decimal_rounds (suc k) n acc =
    let rest = decimal_rounds k (n / 10) ((48 + n % 10) ∷ acc) in
    if ltb n 10 then (48 + n) ∷ acc else rest

unfoldable pub decimal : ℕ → Text
unfolding decimal_rounds
decimal n = decimal_rounds (suc n) n []

-- `a < b` of texts, by code points.
unfoldable pub text_less : Text → Text → Bool
text_less [] [] = false
text_less [] (_ ∷ _) = true
text_less (_ ∷ _) [] = false
text_less (a ∷ s) (b ∷ t) = ltb a b || ((a == b) && text_less s t)

unfoldable pub insert_count : Text × ℕ → List (Text × ℕ) → List (Text × ℕ)
unfolding text_less
insert_count p [] = p ∷ []
insert_count (c, n) ((d, m) ∷ counts) =
    if text_less d c then (d, m) ∷ insert_count (c, n) counts else (c, n) ∷ (d, m) ∷ counts

-- `sorted(error_code_counts.items())`: the codes are distinct.
unfoldable pub sorted_counts : List (Text × ℕ) → List (Text × ℕ)
unfolding insert_count
sorted_counts [] = []
sorted_counts (p ∷ counts) = insert_count p (sorted_counts counts)

-- `", ".join(f"{code}: {count}" …)`
unfoldable pub joined : List (Text × ℕ) → Text
unfolding decimal
joined [] = []
joined ((c, n) ∷ []) = c ++ (58 ∷ 32 ∷ decimal n)
joined ((c, n) ∷ p ∷ counts) = c ++ (58 ∷ 32 ∷ (decimal n ++ (44 ∷ 32 ∷ joined (p ∷ counts))))

-- "Validation failed with … errors."
abbrev pub failed_with : Text
failed_with =
    86 ∷ 97 ∷ 108 ∷ 105 ∷ 100 ∷ 97 ∷ 116 ∷ 105 ∷ 111 ∷ 110 ∷ 32 ∷ 102 ∷ 97 ∷ 105 ∷ 108 ∷ 101 ∷ 100
    ∷ 32 ∷ 119 ∷ 105 ∷ 116 ∷ 104 ∷ 32 ∷ []

abbrev pub errors_word : Text
errors_word = 32 ∷ 101 ∷ 114 ∷ 114 ∷ 111 ∷ 114 ∷ 115 ∷ 46 ∷ []

unfoldable pub rejection_text : Tally → Text
unfolding sorted_counts joined decimal
rejection_text t = elim t.error_code_counts [
  | [] ↦ failed_with ++ (decimal t.error_count ++ errors_word)
  | p ∷ ps ↦ joined (sorted_counts t.error_code_counts)
]
