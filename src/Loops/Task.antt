-- ===== src/Loops/Task.antt =====
-- `fetch_realtime_endpoint_task`: up to its fetch, and from there on. The fetch itself is that of
-- Scheduler; what it stores is a change of the row between the two.
use otwarte_dane_transportow.Common.{
  ℕ, ◌+◌, Bool, not, ◌||◌, Option, none, some, ◌∷◌, if◌then◌else◌, ltb,
}
use otwarte_dane_transportow.Fetch.{
  FetchControl, active, delayed, auto_paused, manual_paused, status_eq,
}
use otwarte_dane_transportow.Loops.Markers.{
  seconds, rt_endpoint_lock_ttl_seconds, EndpointRow, Loop, holds, seconds_until, mark_rt_alive,
  apply_async,
}

-- The `status` of the answer; `fetching` is a run that goes on.
pub data Status : Type 0 where
  skipped_overlap stopped skipped_not_proxied paused_run deferred fetching : Status

-- The early returns and the ends: the marker is deleted, and `finally` deletes the lock.
unfoldable pub stop_loop : Loop → Loop
stop_loop s = record s { alive = none; lock = none }

-- The marker, the next message, and `finally`.
unfoldable pub reschedule : Bool → ℕ → Loop → Loop
unfolding mark_rt_alive apply_async
reschedule sent countdown s = record (apply_async sent countdown (mark_rt_alive countdown s)) {
  lock = none;
}

abbrev pub is_paused : FetchControl → Bool
is_paused c = status_eq c.fetch_status auto_paused || status_eq c.fetch_status manual_paused

-- The time until which a delayed feed waits.
abbrev pub waits_until : ℕ → FetchControl → Option ℕ
waits_until now c =
    if status_eq c.fetch_status delayed
    then elim c.next_fetch_after [ none ↦ none | some t ↦ if ltb now t then some t else none ]
    else none

-- A delayed feed waits; any other is fetched, under the lock.
abbrev pub start_due : Bool → ℕ → Option ℕ → Loop → Loop × Status
start_due sent message (some t) s = (reschedule sent (seconds_until t s.now) s, deferred)
start_due sent message none s = (
  record s {
    lock = some (s.now + seconds rt_endpoint_lock_ttl_seconds);
    running = message ∷ s.running;
  },
  fetching,
)

abbrev pub start_row : Bool → ℕ → Option EndpointRow → Loop → Loop × Status
start_row sent message none s = (stop_loop s, stopped)
start_row sent message (some row) s =
    if not row.is_published
    then (stop_loop s, stopped)
    else if not row.hide_original
    then (stop_loop s, skipped_not_proxied)
    else if is_paused row.fetch
    then (stop_loop s, paused_run)
    else start_due sent message (waits_until s.now row.fetch) s

-- The task, whose message has left the queue, up to its fetch.
unfoldable pub start : Bool → ℕ → Loop → Loop × Status
unfolding stop_loop reschedule
start sent message s =
    if holds s.now s.lock then (s, skipped_overlap) else start_row sent message s.row s

abbrev pub finish_delayed : Bool → Option ℕ → Loop → Loop
finish_delayed sent (some t) s = reschedule sent (seconds_until t s.now) s
finish_delayed sent none s = stop_loop s

abbrev pub finish_row : Bool → Option EndpointRow → Loop → Loop
finish_row sent none s = record s { lock = none }
finish_row sent (some row) s =
    if status_eq row.fetch.fetch_status active
    then reschedule sent row.interval s
    else if status_eq row.fetch.fetch_status delayed
    then finish_delayed sent row.fetch.next_fetch_after s
    else stop_loop s

-- After the fetch, with the row that is read again; `refresh_from_db` raises when there is none.
unfoldable pub finish : Bool → Loop → Loop
unfolding stop_loop reschedule
finish sent s = finish_row sent s.row s
