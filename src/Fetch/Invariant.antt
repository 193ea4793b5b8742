-- ===== src/Fetch/Invariant.antt =====
-- The fetch state's fields agree with its status, after any history of transitions.
use otwarte_dane_transportow.Common.{
  ℕ, ◌+◌, ◌-◌, ◌≤◌, ◌<◌, ◌≡◌, Option, none, some, List, [], ◌∷◌, length, length-take-le, Text,
  arith,
}
use otwarte_dane_transportow.Fetch.Control.{
  active, delayed, auto_paused, manual_paused, FetchControl, fetch_retry_delays, retry_delay,
  pause_reason_chars, new_control,
}
use otwarte_dane_transportow.Fetch.Saved.{Event, succeed, fail, pause, resume, apply, load}

-- The next attempt is planned `delay` after the failure that paused the source.
abbrev pub IsPlanned : ℕ → Option ℕ → Option ℕ → Type 0
IsPlanned delay (some next) (some paused) = next ≡ paused + delay
IsPlanned delay _ _ = ⊥

abbrev pub IsSet_ : Option ℕ → Type 0
IsSet_ (some _) = Unit
IsSet_ none = ⊥

pub record IsConsistent (c : FetchControl) : Type 0 where
  pub active_count : c.fetch_status ≡ active → c.fetch_failure_count ≡ 0
  pub active_next : c.fetch_status ≡ active → c.next_fetch_after ≡ none
  pub active_paused : c.fetch_status ≡ active → c.fetch_paused_at ≡ none
  pub active_reason : c.fetch_status ≡ active → c.fetch_pause_reason ≡ []
  pub delayed_count :
      c.fetch_status ≡ delayed → (0 < c.fetch_failure_count) × (c.fetch_failure_count ≤ 3)
  pub delayed_planned :
      c.fetch_status ≡ delayed
      → IsPlanned
          (retry_delay fetch_retry_delays (c.fetch_failure_count - 1))
          c.next_fetch_after
          c.fetch_paused_at
  pub auto_count : c.fetch_status ≡ auto_paused → 3 < c.fetch_failure_count
  pub auto_next : c.fetch_status ≡ auto_paused → c.next_fetch_after ≡ none
  pub manual_next : c.fetch_status ≡ manual_paused → c.next_fetch_after ≡ none
  pub reason_short : length c.fetch_pause_reason ≤ pause_reason_chars

pub new_control-IsConsistent : IsConsistent new_control
new_control-IsConsistent = ground arith

fail-IsConsistent :
    (reason : Text) (now : ℕ) (c : FetchControl)
    → IsConsistent c
    → IsConsistent (apply (fail reason now) (load c)).row
unfolding apply
fail-IsConsistent reason now c h = ground (arith, length-take-le pause_reason_chars reason)

pub apply-IsConsistent :
    (e : Event) (c : FetchControl) → IsConsistent c → IsConsistent (apply e (load c)).row
unfolding apply
apply-IsConsistent (succeed now) c h = ground arith
apply-IsConsistent (fail reason now) c h = fail-IsConsistent reason now c h
apply-IsConsistent (pause reason now) c h = ground (arith, length-take-le pause_reason_chars reason)
apply-IsConsistent resume c h = ground arith

-- The row after a history of transitions, each on a freshly loaded object.
unfoldable pub run : List Event → FetchControl → FetchControl
run [] c = c
run (e ∷ es) c = run es (apply e (load c)).row

pub run-IsConsistent_from :
    (es : List Event) (c : FetchControl) → IsConsistent c → IsConsistent (run es c)
unfolding run
run-IsConsistent_from [] c h = h
run-IsConsistent_from (e ∷ es) c h =
    run-IsConsistent_from es (apply e (load c)).row (apply-IsConsistent e c h)

-- After any history of successes, failures, pauses and resumptions of a new source, each on a
-- freshly loaded object: an active source has no failures, no planned attempt and no pause; a
-- delayed one has one to three failures and its next attempt is planned at the retry delay of
-- that failure after it; an automatically paused one has more than three failures; a paused one
-- has no planned attempt; and the stored reason is at most 500 characters long.
pub run-IsConsistent : (es : List Event) → IsConsistent (run es new_control)
run-IsConsistent es = run-IsConsistent_from es new_control new_control-IsConsistent
