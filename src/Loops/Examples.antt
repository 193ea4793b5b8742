-- ===== src/Loops/Examples.antt =====
-- Runs around one endpoint, and the theorems at them.
use otwarte_dane_transportow.Common.{◌+◌, ◌≤◌, ◌≡◌, refl, true, none, some, [], ◌∷◌, arith, false}
use otwarte_dane_transportow.Fetch.{new_control, resume_fetch}
use otwarte_dane_transportow.Loops.Markers.{EndpointRow, Loop, loops, seconds, apply_async, holds}
use otwarte_dane_transportow.Loops.Task.{start}
use otwarte_dane_transportow.Loops.Seeding.{bootstrap, schedule, resume_view}
use otwarte_dane_transportow.Loops.Steps.{ticked, started, bootstrapped, scheduled, resumed}
use otwarte_dane_transportow.Loops.Bound.{Run, here, next, marks, is_marked, loops-le_lost}
use otwarte_dane_transportow.Loops.Timely.{TimelyRun, loops-le_one}
use otwarte_dane_transportow.Loops.Healing.{message_of, later, loop-recovers}

abbrev endpoint : EndpointRow
endpoint = record { is_published = true; hide_original = true; interval = 60; fetch = new_control }

abbrev quiet : Loop
quiet = record {
  now = 0;
  row = some endpoint;
  alive = none;
  lock = none;
  queued = [];
  running = [];
}

-- After a bootstrap, with the marker for 180 seconds.
abbrev one_loop : Loop
one_loop = record quiet { alive = some (seconds 180); queued = 0 ∷ [] }

-- After an operator resumed the endpoint, which ran.
abbrev two_loops : Loop
two_loops = record one_loop { queued = 0 ∷ (0 ∷ []) }

resumed_twice : Run quiet 1 two_loops
unfolding bootstrap schedule resume_view resume_fetch apply_async
resumed_twice =
    next (next (next here (bootstrapped true 0 quiet)) (resumed true one_loop))
      (scheduled true (resume_view true one_loop))

loops-le_lost_example : loops two_loops ≤ 1 + marks two_loops
loops-le_lost_example = loops-le_lost refl resumed_twice

-- The message is taken thirty seconds late.
abbrev late : Loop
late = record one_loop { now = seconds 30 }

abbrev in_time : Loop
in_time = record late { lock = some (seconds 330); queued = []; running = 0 ∷ [] }

handled_in_time : TimelyRun quiet in_time
unfolding bootstrap apply_async start
handled_in_time =
    TimelyRun.next
      (TimelyRun.next (TimelyRun.next TimelyRun.here (bootstrapped true 0 quiet) tt)
        (ticked (seconds 30) one_loop) ((omega arith, tt), tt))
      (started true [] [] 0 late refl (omega arith)) tt

loops-le_one_example : loops in_time ≤ 1
loops-le_one_example = loops-le_one refl handled_in_time

-- A worker died in a fetch: the lock and the marker stay for a while.
abbrev dead : Loop
dead = record quiet { now = seconds 30; alive = some (seconds 180); lock = some (seconds 330) }

loop-recovers_example :
    (holds (dead.now + seconds 300) dead.alive ≡ true
      → bootstrap true 2 (later (seconds 300) dead) ≡ later (seconds 300) dead)
    × (holds (dead.now + seconds 300) dead.alive ≡ false
        → holds (dead.now + seconds 300) dead.lock ≡ false
        → let u : Loop = bootstrap true 2 (later (seconds 300) dead) in
          let due : Loop = record (later (seconds 2) u) { queued = dead.queued } in
          let v : Loop = (start true (message_of (seconds 300) 2 dead) due).0 in
          (u.queued ≡ message_of (seconds 300) 2 dead ∷ dead.queued)
          × (is_marked u ≡ true)
          × (v.running ≡ message_of (seconds 300) 2 dead ∷ dead.running)
          × (is_marked v ≡ true))
loop-recovers_example = loop-recovers (seconds 300) 2 endpoint dead refl
