-- ===== src/Fetch/Race.antt =====
-- A pause by a person while a fetch of the same source is in flight.
use otwarte_dane_transportow.Common.{ℕ, ◌≡◌, refl, Text, arith}
use otwarte_dane_transportow.Fetch.Control.{FetchControl, pause_fetch}
use otwarte_dane_transportow.Fetch.Saved.{Event, succeed, fail, apply, load}

-- The fetch loaded its object before the pause was saved, and saves its outcome after it.
abbrev pub in_flight : Text → ℕ → Event → FetchControl → FetchControl
in_flight reason paused_at outcome r =
    (apply outcome (record { object = r; row = (pause_fetch reason paused_at (load r)).row })).row

-- When a fetch that was in flight ends, with a success or with a failure, the row is the one that
-- it would be had the pause never been made: the pause is lost.
pub in_flight-loses_pause :
    (reason text : Text) (paused_at now : ℕ) (r : FetchControl)
    → (in_flight reason paused_at (succeed now) r ≡ (apply (succeed now) (load r)).row)
      × (in_flight reason paused_at (fail text now) r ≡ (apply (fail text now) (load r)).row)
unfolding apply pause_fetch
in_flight-loses_pause reason text paused_at now r = (refl, ground arith)
