-- ===== src/Loops/Timely.antt =====
-- One loop at a time, while messages are handled in time and operators act on idle endpoints.
use mathlib.Core.Path.{subst}
use otwarte_dane_transportow.Common.{
  ℕ, ◌+◌, ◌≤◌, ◌<◌, ◌≡◌, refl, sym, ◌∙◌, Option, none, some, List, [], ◌∷◌, ◌++◌, All, length,
  arith,
}
use otwarte_dane_transportow.Loops.Markers.{Loop, loops}
use otwarte_dane_transportow.Loops.Seeding.{pause_view, resume_view}
use otwarte_dane_transportow.Loops.Steps.{
  Step, ticked, stored, started, finished, killed, bootstrapped, scheduled, paused, resumed,
}
use otwarte_dane_transportow.Loops.Bound.{pause_view-loops, resume_view-loops}
use otwarte_dane_transportow.Loops.Single.{
  slack, IsCovered, IsSingle, idle, waiting, in_fetch, IsSingle-loops, start-IsSingle,
  finish-IsSingle, bootstrap-IsSingle, schedule-IsSingle,
}

-- Time passes while every message is within 120 seconds of its time, and an operator pauses or
-- resumes an endpoint without a loop.
abbrev pub IsTimely : {s t : Loop} → Step s t → Type 0
IsTimely (ticked d s) =
    All (λ m. s.now + d < m + slack) s.queued × All (λ m. s.now + d < m + slack) s.running
IsTimely (paused b reason s) = loops s ≡ 0
IsTimely (resumed b s) = loops s ≡ 0
IsTimely _ = Unit

-- Runs of such steps.
pub data TimelyRun (s : Loop) : Loop → Type 0 where
  here : TimelyRun s s
  next : {t u : Loop} → TimelyRun s t → (step : Step t u) → IsTimely step → TimelyRun s u

one_message :
    (before after : List ℕ) (x y : ℕ)
    → x ∷ [] ≡ before ++ y ∷ after
    → (y ≡ x) × (before ++ after ≡ [])
one_message [] [] x y q = (cc, refl)
one_message [] (z ∷ after) x y q = cc
one_message (b ∷ []) after x y q = cc
one_message (b ∷ (b' ∷ before)) after x y q = cc

no_message : (before after : List ℕ) (y : ℕ) → [] ≡ before ++ y ∷ after → ⊥
no_message [] after y q = cc
no_message (b ∷ before) after y q = cc

later-IsCovered :
    (now d : ℕ) (alive : Option ℕ) (m : ℕ)
    → now + d < m + slack
    → IsCovered now alive m
    → IsCovered (now + d) alive m
later-IsCovered now d none m h c = c
later-IsCovered now d (some end) m h c = (h, c.1)

no_length : (xs : List ℕ) → length xs ≡ 0 → xs ≡ []
no_length [] h = refl
no_length (x ∷ xs) h = absurd (omega (arith, h))

empty-IsSingle : (s : Loop) → loops s ≡ 0 → IsSingle s
empty-IsSingle s h =
    idle (no_length s.queued (omega (arith, h))) (no_length s.running (omega (arith, h)))

first_of : (P : ℕ → Type 0) {xs : List ℕ} (m : ℕ) → xs ≡ m ∷ [] → All P xs → P m
first_of P m q h = (subst (All P) q h).0

Step-IsSingle : {s t : Loop} (step : Step s t) → IsTimely step → IsSingle s → IsSingle t
Step-IsSingle (ticked d s) early (idle q r) = idle q r
Step-IsSingle (ticked d s) early (waiting m q r c) =
    waiting m q r
      (later-IsCovered s.now d s.alive m (first_of (λ m. s.now + d < m + slack) m q (early.0)) c)
Step-IsSingle (ticked d s) early (in_fetch m q r c) =
    in_fetch m q r
      (later-IsCovered s.now d s.alive m (first_of (λ m. s.now + d < m + slack) m r (early.1)) c)
Step-IsSingle (stored row s) _ (idle q r) = idle q r
Step-IsSingle (stored row s) _ (waiting m q r c) = waiting m q r c
Step-IsSingle (stored row s) _ (in_fetch m q r c) = in_fetch m q r c
Step-IsSingle (started sent before after message s e late) _ (idle q r) =
    absurd (no_message before after message (sym q ∙ e))
Step-IsSingle (started sent before after message s e late) _ (waiting m q r c) =
    let (same, none_left) = one_message before after m message (sym q ∙ e) in
    start-IsSingle sent message (record s { queued = before ++ after }) none_left r
      (subst (IsCovered s.now s.alive) (sym same) c)
Step-IsSingle (started sent before after message s e late) _ (in_fetch m q r c) =
    absurd (no_message before after message (sym q ∙ e))
Step-IsSingle (finished sent before after message s e) _ (idle q r) =
    absurd (no_message before after message (sym r ∙ e))
Step-IsSingle (finished sent before after message s e) _ (waiting m q r c) =
    absurd (no_message before after message (sym r ∙ e))
Step-IsSingle (finished sent before after message s e) _ (in_fetch m q r c) =
    finish-IsSingle sent (record s { running = before ++ after }) q
      ((one_message before after m message (sym r ∙ e)).1)
Step-IsSingle (killed before after message s e) _ (idle q r) =
    absurd (no_message before after message (sym r ∙ e))
Step-IsSingle (killed before after message s e) _ (waiting m q r c) =
    absurd (no_message before after message (sym r ∙ e))
Step-IsSingle (killed before after message s e) _ (in_fetch m q r c) =
    idle q ((one_message before after m message (sym r ∙ e)).1)
Step-IsSingle (bootstrapped sent stagger s) _ h = bootstrap-IsSingle sent stagger s h
Step-IsSingle (scheduled sent s) _ h = schedule-IsSingle sent s h
Step-IsSingle (paused b reason s) empty h =
    empty-IsSingle (pause_view b reason s) (omega (arith, empty, pause_view-loops b reason s))
Step-IsSingle (resumed b s) empty h =
    empty-IsSingle (resume_view b s) (omega (arith, empty, resume_view-loops b s))

TimelyRun-IsSingle : {s t : Loop} → loops s ≡ 0 → TimelyRun s t → IsSingle t
TimelyRun-IsSingle {s = s} empty here = empty-IsSingle s empty
TimelyRun-IsSingle empty (next run step early) =
    Step-IsSingle step early (TimelyRun-IsSingle empty run)

-- From a state without messages, an endpoint never has two loops, if every message has been handled
-- within 120 seconds of its time and operators pause and resume endpoints without a loop only.
pub loops-le_one : {s t : Loop} → loops s ≡ 0 → TimelyRun s t → loops t ≤ 1
loops-le_one empty run = IsSingle-loops (TimelyRun-IsSingle empty run)
