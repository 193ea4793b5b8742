-- ===== src/Dispatch/Ticks.antt =====
-- What the ticks of the dispatcher do around a download time.
use otwarte_dane_transportow.Common.{
  ℕ, zero, suc, ◌+◌, ◌-◌, ◌*◌, ◌/◌, ◌%◌, ◌≤◌, ◌<◌, ◌≡◌, ◌≢◌, refl, ap, ◌∙◌, Bool, true, false, ◌||◌,
  ◌==◌, contains, Bool-cases, inl, inr, arith,
}
use otwarte_dane_transportow.Fetch.{minutes}
use otwarte_dane_transportow.Dispatch.Window.{minute_of_day, window_from}

-- An instant that is `minute` minutes after midnight of the day `day`.
abbrev pub instant : ℕ → ℕ → ℕ
instant day minute = minutes (day * 1440 + minute)

pub minute_of_instant :
    (day minute d : ℕ)
    → minute < 1440
    → d < minutes 1
    → minute_of_day (instant day minute + d) ≡ minute * 60
minute_of_instant day minute d h g = omega arith

eq_true : (a b : ℕ) → a ≡ b → (a == b) ≡ true
eq_true a b h = ground arith

ne_false : (a b : ℕ) → a ≢ b → (a == b) ≡ false
ne_false a b h = ground arith

pub found_first : (a b : Bool) → a ≡ true → (a || b) ≡ true
found_first a b h = ground arith

pub found_later : (a b : Bool) → b ≡ true → (a || b) ≡ true
found_later a b h = ground arith

-- The minute of any moment of the window is in the list.
pub window_from-has :
    (offset k now time : ℕ)
    → k ≤ offset
    → minute_of_day (now - minutes k) ≡ time
    → contains time (window_from offset now) ≡ true
window_from-has zero k now time h q =
    let same : now ≡ now - minutes k = omega (arith, h) in
    found_first _ false (eq_true (minute_of_day now) time (ap minute_of_day same ∙ q))
window_from-has (suc offset) k now time h q = elim (Bool-cases (k == suc offset)) [
  | inl b ↦
      (let last : suc offset ≡ k = ground (arith, b) in
        found_first _ _ (
          eq_true (minute_of_day (now - minutes (suc offset))) time
            (ap (λ j. minute_of_day (now - minutes j)) last ∙ q)))
  | inr b ↦ found_later _ _ (window_from-has offset k now time (ground (arith, h, b)) q)
]

no_whole : (m time : ℕ) → time % 60 ≢ 0 → m * 60 ≢ time
no_whole m time h q = h (omega (arith, q))

-- A time with seconds is in no window.
pub window_from-whole :
    (offset now time : ℕ) → time % 60 ≢ 0 → contains time (window_from offset now) ≡ false
window_from-whole zero now time h =
    rw (ne_false (minute_of_day now) time (no_whole (now / 60000000 % 1440) time h)) refl
window_from-whole (suc offset) now time h =
    rw
      (
        ne_false (minute_of_day (now - minutes (suc offset))) time
            (no_whole ((now - minutes (suc offset)) / 60000000 % 1440) time h),
        window_from-whole offset now time h,
      )
      refl
