-- ===== src/Loops/Healing.antt =====
-- How a loop comes back, and how a second one comes.
use otwarte_dane_transportow.Common.{
  ℕ, ◌+◌, ◌≡◌, refl, ap, ◌∙◌, true, false, Option, none, some, ◌∷◌, arith,
}
use otwarte_dane_transportow.Fetch.{active}
use otwarte_dane_transportow.Loops.Markers.{
  EndpointRow, Loop, holds, apply_async, seconds, rt_alive_ttl_buffer_seconds,
}
use otwarte_dane_transportow.Loops.Task.{start}
use otwarte_dane_transportow.Loops.Seeding.{bootstrap, interval_or}
use otwarte_dane_transportow.Loops.Bound.{is_marked}

-- The row of a proxied endpoint of a published submission.
abbrev pub served : EndpointRow → EndpointRow
served row = record row { is_published = true; hide_original = true }

abbrev pub active_row : EndpointRow → EndpointRow
active_row row = record (served row) { fetch = record row.fetch { fetch_status = active } }

-- The endpoint after the keys have ended, after a bootstrap, and when the message is due.
abbrev pub later : ℕ → Loop → Loop
later d s = record s { now = s.now + d }

abbrev seeded : ℕ → ℕ → Loop → Loop
seeded d stagger s = bootstrap true stagger (later d s)

abbrev at_message : ℕ → ℕ → Loop → Loop
at_message d stagger s = later (seconds stagger) (seeded d stagger s)

abbrev pub message_of : ℕ → ℕ → Loop → ℕ
message_of d stagger s = s.now + d + seconds stagger

bootstrap-seeds :
    (d stagger : ℕ) (row : EndpointRow) (s : Loop)
    → s.row ≡ some (active_row row)
    → holds (s.now + d) s.alive ≡ false
    → ((seeded d stagger s).queued ≡ message_of d stagger s ∷ s.queued)
      × ((seeded d stagger s).row ≡ some (active_row row))
      × ((seeded d stagger s).now ≡ s.now + d)
      × ((seeded d stagger s).lock ≡ s.lock)
      × ((seeded d stagger s).running ≡ s.running)
      × ((seeded d stagger s).alive
          ≡ some (
              s.now
              + d
              + seconds (stagger + (interval_or row.interval + rt_alive_ttl_buffer_seconds))))
unfolding bootstrap apply_async
bootstrap-seeds d stagger row s r gone = rw (r, gone) (refl, refl, refl, refl, refl, refl)

start-fetches :
    (message : ℕ) (row : EndpointRow) (u : Loop)
    → u.row ≡ some (active_row row)
    → holds u.now u.lock ≡ false
    → ((start true message u).0.running ≡ message ∷ u.running)
      × ((start true message u).0.alive ≡ u.alive)
      × ((start true message u).0.now ≡ u.now)
unfolding start
start-fetches message row u r free = rw (r, free) (refl, refl, refl)

ended_later : (now d : ℕ) (end : Option ℕ) → holds now end ≡ false → holds (now + d) end ≡ false
ended_later now d none h = refl
ended_later now d (some end) h = ground arith

later_marker :
    (now stagger interval : ℕ)
    → holds
        (now + seconds stagger)
        (some (now + seconds (stagger + (interval + rt_alive_ttl_buffer_seconds))))
      ≡ true
later_marker now stagger interval = ground arith

-- The message of a bootstrap after the keys have ended, taken by a worker.
abbrev taken : ℕ → ℕ → Loop → Loop
taken d stagger s =
    (start true (message_of d stagger s) (record (at_message d stagger s) { queued = s.queued })).0

taken-fetches :
    (d stagger : ℕ) (row : EndpointRow) (s : Loop)
    → s.row ≡ some (active_row row)
    → holds (s.now + d) s.alive ≡ false
    → holds (s.now + d) s.lock ≡ false
    → ((taken d stagger s).running ≡ message_of d stagger s ∷ s.running)
      × (is_marked (taken d stagger s) ≡ true)
taken-fetches d stagger row s r gone free =
    let (queued, row_kept, now, lock, running, alive) = bootstrap-seeds d stagger row s r gone in
    let u : Loop = record (at_message d stagger s) { queued = s.queued } in
    let free_then : holds u.now u.lock ≡ false =
      rw (now, lock) (ended_later (s.now + d) (seconds stagger) s.lock free) in
    let (in_fetch, alive_kept, now_kept) =
      start-fetches (message_of d stagger s) row u row_kept free_then in
    (
      in_fetch ∙ ap (λ l. message_of d stagger s ∷ l) running,
      rw (alive_kept, now_kept, alive, now)
          (later_marker (s.now + d) stagger (interval_or row.interval)),
    )

marked_seeded :
    (now stagger interval : ℕ)
    → holds now (some (now + seconds (stagger + (interval + rt_alive_ttl_buffer_seconds)))) ≡ true
marked_seeded now stagger interval = ground arith

bootstrap-marked :
    (stagger : ℕ) (row : EndpointRow) (s : Loop)
    → s.row ≡ some (active_row row)
    → holds s.now s.alive ≡ true
    → bootstrap true stagger s ≡ s
unfolding bootstrap
bootstrap-marked stagger row s r alive = rw (r, alive) refl

-- However the loop of an active endpoint of a published submission was lost: while the marker is
-- there a bootstrap changes nothing; and once the two keys have ended, a bootstrap queues one message
-- and marks the endpoint, and a worker that takes this message when it is due fetches, with the marker
-- still there.
pub loop-recovers :
    (d stagger : ℕ) (row : EndpointRow) (s : Loop)
    → s.row ≡ some (active_row row)
    → (holds (s.now + d) s.alive ≡ true → bootstrap true stagger (later d s) ≡ later d s)
      × (holds (s.now + d) s.alive ≡ false
          → holds (s.now + d) s.lock ≡ false
          → let u : Loop = bootstrap true stagger (later d s) in
            let due : Loop = record (later (seconds stagger) u) { queued = s.queued } in
            let v : Loop = (start true (message_of d stagger s) due).0 in
            (u.queued ≡ message_of d stagger s ∷ s.queued)
            × (is_marked u ≡ true)
            × (v.running ≡ message_of d stagger s ∷ s.running)
            × (is_marked v ≡ true))
loop-recovers d stagger row s r = (
  bootstrap-marked stagger row (later d s) r,
  λ gone free.
      let (queued, _, now, _, _, alive) = bootstrap-seeds d stagger row s r gone in
      let (running, marked) = taken-fetches d stagger row s r gone free in
      (
        queued,
        rw (alive, now) (marked_seeded (s.now + d) stagger (interval_or row.interval)),
        running,
        marked,
      ),
)
