-- ===== src/Loops/Single.antt =====
-- When an endpoint has one loop.
use otwarte_dane_transportow.Common.{
  ℕ, ◌+◌, ◌≤◌, ◌<◌, ◌≡◌, ap, Bool, true, false, not, Option, none, some, [], ◌∷◌, if◌then◌else◌,
  length, Bool-cases, inl, inr, arith,
}
use otwarte_dane_transportow.Loops.Markers.{
  EndpointRow, Loop, holds, loops, mark_rt_alive, apply_async, seconds, seconds_until,
  rt_alive_ttl_buffer_seconds,
}
use otwarte_dane_transportow.Loops.Task.{
  Status, stopped, skipped_not_proxied, skipped_overlap, paused_run, start, start_row, start_due,
  finish, finish_row, finish_delayed, reschedule, stop_loop, waits_until, is_paused,
}
use otwarte_dane_transportow.Loops.Seeding.{bootstrap, bootstrap_row, schedule, schedule_row, seed}

abbrev pub slack : ℕ
slack = seconds rt_alive_ttl_buffer_seconds

-- A message within its slack, which the marker outlasts.
abbrev pub IsCovered : ℕ → Option ℕ → ℕ → Type 0
IsCovered now none message = ⊥
IsCovered now (some end) message = (now < message + slack) × (message + slack ≤ end)

-- No loop, or one, with its marker.
pub data IsSingle (s : Loop) : Type 0 where
  idle : s.queued ≡ [] → s.running ≡ [] → IsSingle s
  waiting :
      (message : ℕ)
      → s.queued ≡ message ∷ []
      → s.running ≡ []
      → IsCovered s.now s.alive message
      → IsSingle s
  in_fetch :
      (message : ℕ)
      → s.queued ≡ []
      → s.running ≡ message ∷ []
      → IsCovered s.now s.alive message
      → IsSingle s

pub IsSingle-loops : {s : Loop} → IsSingle s → loops s ≤ 1
IsSingle-loops (idle q r) = omega (arith, ap length q, ap length r)
IsSingle-loops (waiting m q r c) = omega (arith, ap length q, ap length r)
IsSingle-loops (in_fetch m q r c) = omega (arith, ap length q, ap length r)

if-IsSingle : (b : Bool) (x y : Loop) → IsSingle x → IsSingle y → IsSingle (if b then x else y)
if-IsSingle true x y h g = h
if-IsSingle false x y h g = g

if-first :
    (b : Bool) (x y : Loop × Status)
    → IsSingle (x.0)
    → IsSingle (y.0)
    → IsSingle ((if b then x else y).0)
if-first true x y h g = h
if-first false x y h g = g

stop_loop-IsSingle : (s : Loop) → s.queued ≡ [] → s.running ≡ [] → IsSingle (stop_loop s)
unfolding stop_loop
stop_loop-IsSingle s q r = idle q r

reschedule-IsSingle :
    (sent : Bool) (countdown : ℕ) (s : Loop)
    → s.queued ≡ []
    → s.running ≡ []
    → IsSingle (reschedule sent countdown s)
unfolding reschedule mark_rt_alive apply_async
reschedule-IsSingle true countdown s q r =
    waiting (s.now + seconds countdown) (ap (λ l. (s.now + seconds countdown) ∷ l) q) r
      (omega arith, omega arith)
reschedule-IsSingle false countdown s q r = idle q r

seed-IsSingle :
    (ttl countdown : ℕ) (sent : Bool) (s : Loop)
    → countdown + rt_alive_ttl_buffer_seconds ≤ ttl
    → s.queued ≡ []
    → s.running ≡ []
    → IsSingle (seed ttl countdown sent s)
unfolding apply_async
seed-IsSingle ttl countdown true s h q r =
    waiting (s.now + seconds countdown) (ap (λ l. (s.now + seconds countdown) ∷ l) q) r
      (omega arith, omega arith)
seed-IsSingle ttl countdown false s h q r = idle q r

covered-holds :
    (now : ℕ) (alive : Option ℕ) (message : ℕ)
    → IsCovered now alive message
    → holds now alive ≡ true
covered-holds now none message c = absurd c
covered-holds now (some end) message c = ground arith

-- Without a marker there is no loop.
unmarked :
    {s : Loop} → IsSingle s → holds s.now s.alive ≡ false → (s.queued ≡ []) × (s.running ≡ [])
unmarked (idle q r) h = (q, r)
unmarked {s = s} (waiting m q r c) h = (let held = covered-holds s.now s.alive m c in cc)
unmarked {s = s} (in_fetch m q r c) h = (let held = covered-holds s.now s.alive m c in cc)

start_due-IsSingle :
    (sent : Bool) (message : ℕ) (until : Option ℕ) (s : Loop)
    → s.queued ≡ []
    → s.running ≡ []
    → IsCovered s.now s.alive message
    → IsSingle ((start_due sent message until s).0)
start_due-IsSingle sent message (some t) s q r c =
    reschedule-IsSingle sent (seconds_until t s.now) s q r
start_due-IsSingle sent message none s q r c = in_fetch message q (ap (λ l. message ∷ l) r) c

start_row-IsSingle :
    (sent : Bool) (message : ℕ) (row : Option EndpointRow) (s : Loop)
    → s.queued ≡ []
    → s.running ≡ []
    → IsCovered s.now s.alive message
    → IsSingle ((start_row sent message row s).0)
start_row-IsSingle sent message none s q r c = stop_loop-IsSingle s q r
start_row-IsSingle sent message (some row) s q r c =
    let due = start_due sent message (waits_until s.now row.fetch) s in
    let unpaused : Loop × Status = if is_paused row.fetch then (stop_loop s, paused_run) else due in
    let proxied : Loop × Status =
      if not row.hide_original then (stop_loop s, skipped_not_proxied) else unpaused in
    let end = stop_loop-IsSingle s q r in
    if-first (not row.is_published) (stop_loop s, stopped) proxied end
      (if-first (not row.hide_original) (stop_loop s, skipped_not_proxied) unpaused end
        (if-first (is_paused row.fetch) (stop_loop s, paused_run) due end
          (start_due-IsSingle sent message (waits_until s.now row.fetch) s q r c)))

pub start-IsSingle :
    (sent : Bool) (message : ℕ) (s : Loop)
    → s.queued ≡ []
    → s.running ≡ []
    → IsCovered s.now s.alive message
    → IsSingle ((start sent message s).0)
unfolding start
start-IsSingle sent message s q r c =
    if-first (holds s.now s.lock) (s, skipped_overlap) (start_row sent message s.row s) (idle q r)
      (start_row-IsSingle sent message s.row s q r c)

finish_delayed-IsSingle :
    (sent : Bool) (until : Option ℕ) (s : Loop)
    → s.queued ≡ []
    → s.running ≡ []
    → IsSingle (finish_delayed sent until s)
finish_delayed-IsSingle sent (some t) s q r = reschedule-IsSingle sent (seconds_until t s.now) s q r
finish_delayed-IsSingle sent none s q r = stop_loop-IsSingle s q r

finish_row-IsSingle :
    (sent : Bool) (row : Option EndpointRow) (s : Loop)
    → s.queued ≡ []
    → s.running ≡ []
    → IsSingle (finish_row sent row s)
finish_row-IsSingle sent none s q r = idle q r
finish_row-IsSingle sent (some row) s q r =
    if-IsSingle _ _ _ (reschedule-IsSingle sent row.interval s q r) (
      if-IsSingle _ _ _ (finish_delayed-IsSingle sent row.fetch.next_fetch_after s q r)
        (stop_loop-IsSingle s q r))

-- A seed is set only where there is no marker.
unless_marked :
    (s t : Loop)
    → IsSingle s
    → (s.queued ≡ [] → s.running ≡ [] → IsSingle t)
    → IsSingle (if holds s.now s.alive then s else t)
unless_marked s t h g = elim (Bool-cases (holds s.now s.alive)) [
  | inl b ↦ rw b h
  | inr b ↦ (let (q, r) = unmarked h b in rw b (g q r))
]

bootstrap_row-IsSingle :
    (sent : Bool) (stagger : ℕ) (row : Option EndpointRow) (s : Loop)
    → IsSingle s
    → IsSingle (bootstrap_row sent stagger row s)
bootstrap_row-IsSingle sent stagger none s h = h
bootstrap_row-IsSingle sent stagger (some row) s h =
    if-IsSingle _ _ _ h (unless_marked s _ h (seed-IsSingle _ stagger sent s (omega arith)))

schedule_row-IsSingle :
    (sent : Bool) (row : Option EndpointRow) (s : Loop)
    → IsSingle s
    → IsSingle (schedule_row sent row s)
schedule_row-IsSingle sent none s h = h
schedule_row-IsSingle sent (some row) s h = if-IsSingle _ _ _ h (
    unless_marked s _ h
      (λ q r. if-IsSingle sent _ _ (seed-IsSingle _ 0 true s (omega arith) q r) (idle q r)))

pub finish-IsSingle :
    (sent : Bool) (s : Loop) → s.queued ≡ [] → s.running ≡ [] → IsSingle (finish sent s)
unfolding finish
finish-IsSingle sent s q r = finish_row-IsSingle sent s.row s q r

pub bootstrap-IsSingle :
    (sent : Bool) (stagger : ℕ) (s : Loop) → IsSingle s → IsSingle (bootstrap sent stagger s)
unfolding bootstrap
bootstrap-IsSingle sent stagger s h = bootstrap_row-IsSingle sent stagger s.row s h

pub schedule-IsSingle : (sent : Bool) (s : Loop) → IsSingle s → IsSingle (schedule sent s)
unfolding schedule
schedule-IsSingle sent s h = schedule_row-IsSingle sent s.row s h
