-- ===== src/Loops/Bound.antt =====
-- How many loops an endpoint can have.
use otwarte_dane_transportow.Common.{
  ℕ, suc, ◌+◌, ◌≤◌, ◌≡◌, refl, ap, ◌∙◌, Bool, true, false, not, ◌&&◌, List, [], ◌∷◌, ◌++◌,
  if◌then◌else◌, length, Text, arith,
}
use otwarte_dane_transportow.Loops.Markers.{Loop, holds, loops, mark_rt_alive, apply_async}
use otwarte_dane_transportow.Loops.Task.{start, finish, reschedule, stop_loop}
use otwarte_dane_transportow.Loops.Seeding.{bootstrap, schedule, pause_view, resume_view}
use otwarte_dane_transportow.Loops.Steps.{
  Step, ticked, stored, started, finished, killed, bootstrapped, scheduled, paused, resumed,
}

-- Is the marker there?
abbrev pub is_marked : Loop → Bool
is_marked s = holds s.now s.alive

-- The number of times that a step loses the marker while there are messages left.
abbrev pub lost : Loop → Loop → ℕ
lost s t = if is_marked s && not (is_marked t) then 1 else 0

-- Runs, by the number of lost markers.
pub data Run (s : Loop) : ℕ → Loop → Type 0 where
  here : Run s 0 s
  next : {n : ℕ} {t u : Loop} → Run s n t → Step t u → Run s (lost t u + n) u

abbrev pub marks : Loop → ℕ
marks s = if is_marked s then 1 else 0

length-removed :
    (before after : List ℕ) (x : ℕ) → length (before ++ x ∷ after) ≡ suc (length (before ++ after))
length-removed [] after x = refl
length-removed (y ∷ before) after x = ap suc (length-removed before after x)

-- No step adds a loop but one that finds no marker and sets it.
abbrev IsBounded : Loop → Loop → Type 0
IsBounded s t = loops t + marks s ≤ loops s + (marks t + lost s t)

start-loops :
    (sent : Bool) (message : ℕ) (s : Loop) → loops ((start sent message s).0) ≤ suc (loops s)
unfolding start reschedule stop_loop mark_rt_alive apply_async
start-loops sent message s = ground arith

finish-loops : (sent : Bool) (s : Loop) → loops (finish sent s) ≤ suc (loops s)
unfolding finish reschedule stop_loop mark_rt_alive apply_async
finish-loops sent s = ground arith

kept-IsBounded : (s t : Loop) → loops t ≤ loops s → IsBounded s t
kept-IsBounded s t h = ground arith

seeded-IsBounded :
    (s t : Loop)
    → is_marked s ≡ false
    → is_marked t ≡ true
    → loops t ≤ suc (loops s)
    → IsBounded s t
seeded-IsBounded s t unmarked marked h = ground arith

bootstrap-IsBounded :
    (sent : Bool) (stagger : ℕ) (s : Loop) → IsBounded s (bootstrap sent stagger s)
unfolding bootstrap apply_async
bootstrap-IsBounded sent stagger s = ground arith

schedule-IsBounded : (sent : Bool) (s : Loop) → IsBounded s (schedule sent s)
unfolding schedule apply_async
schedule-IsBounded sent s = ground arith

pub pause_view-loops :
    (b : Bool) (reason : Text) (s : Loop) → loops (pause_view b reason s) ≤ loops s
unfolding pause_view
pause_view-loops b reason s = ground arith

pub resume_view-loops : (b : Bool) (s : Loop) → loops (resume_view b s) ≤ loops s
unfolding resume_view
resume_view-loops b s = ground arith

removed-loops :
    {xs : List ℕ} (before after : List ℕ) (x : ℕ)
    → xs ≡ before ++ x ∷ after
    → length xs ≡ suc (length (before ++ after))
removed-loops before after x q = ap length q ∙ length-removed before after x

Step-IsBounded : {s t : Loop} → Step s t → IsBounded s t
Step-IsBounded (ticked d s) = kept-IsBounded s (record s { now = s.now + d }) (omega arith)
Step-IsBounded (stored row s) = kept-IsBounded s (record s { row = row }) (omega arith)
Step-IsBounded (started sent before after message s q late) =
    let left : Loop = record s { queued = before ++ after } in
    kept-IsBounded s ((start sent message left).0)
      (omega (arith, start-loops sent message left, removed-loops before after message q))
Step-IsBounded (finished sent before after message s q) =
    let left : Loop = record s { running = before ++ after } in
    kept-IsBounded s (finish sent left)
      (omega (arith, finish-loops sent left, removed-loops before after message q))
Step-IsBounded (killed before after message s q) =
    kept-IsBounded s (record s { running = before ++ after })
      (omega (arith, removed-loops before after message q))
Step-IsBounded (bootstrapped sent stagger s) = bootstrap-IsBounded sent stagger s
Step-IsBounded (scheduled sent s) = schedule-IsBounded sent s
Step-IsBounded (paused b reason s) =
    kept-IsBounded s (pause_view b reason s) (pause_view-loops b reason s)
Step-IsBounded (resumed b s) = kept-IsBounded s (resume_view b s) (resume_view-loops b s)

-- From a state without messages, there are never more loops than markers that were lost, and one
-- more while there is a marker. A marker is lost by its deletion or its end.
pub loops-le_lost : {s t : Loop} {n : ℕ} → loops s ≡ 0 → Run s n t → loops t ≤ n + marks t
loops-le_lost empty here = ground arith
loops-le_lost empty (next r step) = omega (arith, loops-le_lost empty r, Step-IsBounded step)
