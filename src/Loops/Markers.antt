-- ===== src/Loops/Markers.antt =====
-- What the loop of an endpoint stands on: its row, the two cache keys, and the messages. Times are
-- microseconds.
use otwarte_dane_transportow.Common.{
  ℕ, ◌+◌, ◌-◌, ◌*◌, ◌/◌, Bool, false, Option, none, some, List, ◌∷◌, if◌then◌else◌, ltb, length,
}
use otwarte_dane_transportow.Fetch.{FetchControl}

abbrev pub seconds : ℕ → ℕ
seconds n = n * 1000000

abbrev pub rt_endpoint_lock_ttl_seconds : ℕ
rt_endpoint_lock_ttl_seconds = 300

abbrev pub rt_alive_ttl_buffer_seconds : ℕ
rt_alive_ttl_buffer_seconds = 120

-- The columns of `RealtimeEndpointRT` that the loop reads; `is_published` is whether the list of
-- completed submissions has the submission.
pub record EndpointRow : Type 0 where
  pub is_published : Bool
  pub hide_original : Bool
  pub interval : ℕ
  pub fetch : FetchControl

-- `alive` and `lock` are the times at which the two keys end. A message is its time of delivery;
-- `queued` waits for a worker, `running` is in its fetch.
pub record Loop : Type 0 where
  pub now : ℕ
  pub row : Option EndpointRow
  pub alive : Option ℕ
  pub lock : Option ℕ
  pub queued : List ℕ
  pub running : List ℕ

-- Is there a key at a time?
abbrev pub holds : ℕ → Option ℕ → Bool
holds now none = false
holds now (some end) = ltb now end

-- `_seconds_until`
abbrev pub seconds_until : ℕ → ℕ → ℕ
seconds_until t now = (t - now) / 1000000

-- `_mark_rt_alive`
unfoldable pub mark_rt_alive : ℕ → Loop → Loop
mark_rt_alive countdown s = record s {
  alive = some (s.now + seconds (countdown + rt_alive_ttl_buffer_seconds));
}

-- `apply_async`, or `delay` at 0; `sent` is whether the broker took the message.
unfoldable pub apply_async : Bool → ℕ → Loop → Loop
apply_async sent countdown s =
    if sent then record s { queued = (s.now + seconds countdown) ∷ s.queued } else s

-- The messages that are on their way or in a fetch.
abbrev pub loops : Loop → ℕ
loops s = length s.queued + length s.running
