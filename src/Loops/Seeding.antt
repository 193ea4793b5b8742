-- ===== src/Loops/Seeding.antt =====
-- What starts a loop: `bootstrap_realtime_tasks` and `schedule_realtime_endpoint_fetches`, at one
-- endpoint, and the views of an operator.
use otwarte_dane_transportow.Common.{
  ℕ, ◌+◌, Bool, true, false, not, ◌&&◌, ◌||◌, Option, none, some, ◌==◌, if◌then◌else◌, leb, Text,
}
use otwarte_dane_transportow.Fetch.{active, delayed, status_eq, pause_fetch, resume_fetch}
use otwarte_dane_transportow.Fetch.Saved.{load}
use otwarte_dane_transportow.Loops.Markers.{
  seconds, rt_alive_ttl_buffer_seconds, EndpointRow, Loop, holds, apply_async,
}

-- `interval or 60`
abbrev pub interval_or : ℕ → ℕ
interval_or n = if n == 0 then 60 else n

-- The queryset of the bootstrap.
abbrev pub is_due : ℕ → EndpointRow → Bool
is_due now row =
    row.is_published
    && (row.hide_original
        && (status_eq row.fetch.fetch_status active
            || (status_eq row.fetch.fetch_status delayed
                && elim row.fetch.next_fetch_after [ none ↦ false | some t ↦ leb t now ])))

-- A loop with its marker.
abbrev pub seed : ℕ → ℕ → Bool → Loop → Loop
seed ttl countdown sent s =
    apply_async sent countdown (record s { alive = some (s.now + seconds ttl) })

abbrev pub bootstrap_row : Bool → ℕ → Option EndpointRow → Loop → Loop
bootstrap_row sent stagger none s = s
bootstrap_row sent stagger (some row) s =
    if not (is_due s.now row)
    then s
    else if holds s.now s.alive
    then s
    else seed (stagger + (interval_or row.interval + rt_alive_ttl_buffer_seconds)) stagger sent s

-- `stagger` is the endpoint's place in the burst with its jitter.
unfoldable pub bootstrap : Bool → ℕ → Loop → Loop
unfolding apply_async
bootstrap sent stagger s = bootstrap_row sent stagger s.row s

abbrev pub is_scheduled : EndpointRow → Bool
is_scheduled row =
    row.is_published && (row.hide_original && status_eq row.fetch.fetch_status active)

-- The reservation is given back when the broker does not take the message.
abbrev pub schedule_row : Bool → Option EndpointRow → Loop → Loop
schedule_row sent none s = s
schedule_row sent (some row) s =
    if not (is_scheduled row)
    then s
    else if holds s.now s.alive
    then s
    else if sent
    then seed (interval_or row.interval + rt_alive_ttl_buffer_seconds) 0 true s
    else record s { alive = none }

unfoldable pub schedule : Bool → Loop → Loop
unfolding apply_async
schedule sent s = schedule_row sent s.row s

-- The handlers answer 403 and 404, and refuse an endpoint that is not proxy-managed.
unfoldable pub pause_view : Bool → Text → Loop → Loop
pause_view is_operator reason s = if not is_operator then s else elim s.row [
  | none ↦ s
  | some row ↦ if not row.hide_original then s else record s {
    row = some (record row { fetch = (pause_fetch reason s.now (load row.fetch)).row });
    alive = none;
  }
]

-- Up to the commit, which calls `schedule`.
unfoldable pub resume_view : Bool → Loop → Loop
resume_view is_operator s = if not is_operator then s else elim s.row [
  | none ↦ s
  | some row ↦ if not row.hide_original then s else record s {
    row = some (record row { fetch = (resume_fetch (load row.fetch)).row });
    alive = none;
  }
]
