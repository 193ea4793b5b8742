-- ===== src/Review/StageValue.antt =====
-- `_validate_stage_value` of data_manager/api/views.py, over the values that a JSON or form body
-- can hold, with Python's `int` and `str.strip`. Of the decimal digits only those of ASCII are read.
use otwarte_dane_transportow.Common.{
  ℕ, zero, suc, ◌+◌, ◌-◌, ◌*◌, Bool, true, false, ◌&&◌, ◌||◌, Option, none, some, [], ◌∷◌, ltb, leb,
  ◌==◌, if◌then◌else◌, Text, contains,
}
use otwarte_dane_transportow.Review.Answers.{
  Outcome, done, invalid, server_error, not_an_integer, not_between,
}

-- `negsuc n` is -(n + 1).
pub data ℤ : Type 0 where
  pos : ℕ → ℤ
  negsuc : ℕ → ℤ

-- A value of `request.data`. A finite float is given by its integral part.
pub data RawStage : Type 0 where
  missing : RawStage
  int : ℤ → RawStage
  bool : Bool → RawStage
  float : ℤ → RawStage
  nan infinite : RawStage
  text : Text → RawStage
  other : RawStage

-- `str.isspace` of one character.
unfoldable pub is_space : ℕ → Bool
is_space c =
    leb 9 c && leb c 13
    || (leb 28 c && leb c 32)
    || (leb 8192 c && leb c 8202
        || contains c (133 ∷ 160 ∷ 5760 ∷ 8232 ∷ 8233 ∷ 8239 ∷ 8287 ∷ 12288 ∷ []))

unfoldable pub lstrip : Text → Text
unfolding is_space
lstrip [] = []
lstrip (c ∷ s) = if is_space c then lstrip s else c ∷ s

unfoldable pub rstrip : Text → Text
unfolding is_space
rstrip [] = []
rstrip (c ∷ s) = elim (rstrip s) [ [] ↦ if is_space c then [] else c ∷ [] | d ∷ ds ↦ c ∷ d ∷ ds ]

unfoldable pub strip : Text → Text
unfolding lstrip rstrip
strip s = rstrip (lstrip s)

abbrev pub is_digit : ℕ → Bool
is_digit c = leb b'0' c && leb c b'9'

-- Digits with single underscores between them, from a digit on: `value` is what was read before.
unfoldable pub digits_from : Bool → ℕ → Text → Option ℕ
digits_from after_digit value [] = if after_digit then some value else none
digits_from after_digit value (c ∷ s) =
    let read = digits_from true (value * 10 + (c - b'0')) s in
    let skip = digits_from false value s in
    if is_digit c then read else if after_digit && (c == b'_') then skip else none

abbrev pub negated : ℕ → ℤ
negated zero = pos 0
negated (suc n) = negsuc n

abbrev pub signed : (ℕ → ℤ) → Option ℕ → Option ℤ
signed f none = none
signed f (some n) = some (f n)

unfoldable pub int_of_stripped : Text → Option ℤ
unfolding digits_from
int_of_stripped [] = none
int_of_stripped (c ∷ s) =
    if c == b'-'
    then signed negated (digits_from false 0 s)
    else if c == b'+'
    then signed pos (digits_from false 0 s)
    else signed pos (digits_from false 0 (c ∷ s))

-- `int(text)`; none is `ValueError`.
unfoldable pub int_of_text : Text → Option ℤ
unfolding strip int_of_stripped
int_of_text s = int_of_stripped (strip s)

-- `if value < 1 or value > 4: raise`
unfoldable pub in_range : ℤ → Outcome (Option ℕ)
in_range (pos n) = if ltb n 1 || ltb 4 n then invalid not_between else done (some n)
in_range (negsuc n) = invalid not_between

abbrev pub int_or_error : Option ℤ → Outcome (Option ℕ)
int_or_error none = invalid not_an_integer
int_or_error (some n) = in_range n

-- `int` of an infinite float raises `OverflowError`, which the handler does not catch.
unfoldable pub validate_stage_value : RawStage → Outcome (Option ℕ)
unfolding in_range int_of_text
validate_stage_value missing = done none
validate_stage_value (int n) = in_range n
validate_stage_value (bool true) = in_range (pos 1)
validate_stage_value (bool false) = in_range (pos 0)
validate_stage_value (float n) = in_range n
validate_stage_value nan = invalid not_an_integer
validate_stage_value infinite = server_error
validate_stage_value (text s) = int_or_error (int_of_text s)
validate_stage_value other = invalid not_an_integer
