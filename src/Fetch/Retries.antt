-- ===== src/Fetch/Retries.antt =====
-- The retry schedule: how a source that keeps failing is retried, and when it is given up.
use otwarte_dane_transportow.Common.{
  ℕ, ◌+◌, ◌≤◌, ◌<◌, ◌≡◌, true, false, none, some, List, [], ◌∷◌, leb, if◌then◌else◌, Text,
  Bool-cases, inl, inr, arith,
}
use otwarte_dane_transportow.Fetch.Control.{
  active, delayed, auto_paused, manual_paused, FetchControl, fetch_retry_delays, retry_delay,
  new_control, fetch_is_due,
}
use otwarte_dane_transportow.Fetch.Saved.{fail, apply, load}
use otwarte_dane_transportow.Fetch.Invariant.{
  IsConsistent, new_control-IsConsistent, apply-IsConsistent,
}

-- A failure that is at most the third in a row delays the source by five minutes, an hour or six
-- hours, in this order; any later failure pauses it with no planned attempt.
pub fail-schedule :
    (reason : Text) (now : ℕ) (c : FetchControl)
    → let c' = (apply (fail reason now) (load c)).row in
      (c'.fetch_failure_count ≡ c.fetch_failure_count + 1)
      × (c.fetch_failure_count < 3
          → (c'.fetch_status ≡ delayed)
            × (c'.next_fetch_after
                ≡ some (now + retry_delay fetch_retry_delays c.fetch_failure_count)))
      × (3 ≤ c.fetch_failure_count → (c'.fetch_status ≡ auto_paused) × (c'.next_fetch_after ≡ none))
unfolding apply
fail-schedule reason now c = ground arith

-- When a consistent source is due: always if active, from its planned time on if delayed, and
-- never while it is paused, whether by a person or automatically.
pub fetch_is_due_iff :
    (now : ℕ) (c : FetchControl)
    → IsConsistent c
    → (c.fetch_status ≡ active → fetch_is_due now c ≡ true)
      × (c.fetch_status ≡ delayed
          → (t : ℕ) × (c.next_fetch_after ≡ some t) × (fetch_is_due now c ≡ leb t now))
      × (c.fetch_status ≡ auto_paused → fetch_is_due now c ≡ false)
      × (c.fetch_status ≡ manual_paused → fetch_is_due now c ≡ false)
unfolding fetch_is_due
fetch_is_due_iff now c h = (ground arith, delayed_due, ground arith, ground arith)
  where
    delayed_due :
        c.fetch_status ≡ delayed
        → (t : ℕ) × (c.next_fetch_after ≡ some t) × (fetch_is_due now c ≡ leb t now)
    delayed_due e = ground (arith, h.delayed_planned e)

-- A poll of the dispatcher for a source whose every download fails: it is tried if it is due.
abbrev pub poll : Text × ℕ → FetchControl → FetchControl
poll (reason, now) c = if fetch_is_due now c then (apply (fail reason now) (load c)).row else c

abbrev pub poll_all : List (Text × ℕ) → FetchControl → FetchControl
poll_all [] c = c
poll_all (p ∷ ps) c = poll_all ps (poll p c)

-- The attempts that the polls make.
abbrev pub attempt : Text × ℕ → FetchControl → ℕ
attempt (reason, now) c = if fetch_is_due now c then 1 else 0

abbrev pub attempts : List (Text × ℕ) → FetchControl → ℕ
attempts [] c = 0
attempts (p ∷ ps) c = attempt p c + attempts ps (poll p c)

record IsRetried (c : FetchControl) : Type 0 where
  consistent : IsConsistent c
  not_manual : c.fetch_status ≡ manual_paused → ⊥
  at_most : c.fetch_failure_count ≤ 4

poll-IsRetried :
    (reason : Text) (now : ℕ) (c : FetchControl) → IsRetried c → IsRetried (poll (reason, now) c)
poll-IsRetried reason now c h = elim (Bool-cases (fetch_is_due now c)) [
  | inl due ↦ rw due (tried due)
  | inr wait ↦ rw wait h
]
  where
    few : fetch_is_due now c ≡ true → c.fetch_failure_count ≤ 3
    few due = unfold fetch_is_due in ground (arith, h.consistent)

    tried : fetch_is_due now c ≡ true → IsRetried (apply (fail reason now) (load c)).row
    tried due = record {
      consistent = apply-IsConsistent (fail reason now) c h.consistent;
      not_manual = unfold apply in ground arith;
      at_most = omega (arith, few due, (fail-schedule reason now c).0);
    }

count-poll :
    (p : Text × ℕ) (c : FetchControl)
    → (poll p c).fetch_failure_count ≡ c.fetch_failure_count + attempt p c
count-poll (reason, now) c = elim (Bool-cases (fetch_is_due now c)) [
  | inl due ↦ rw due ((fail-schedule reason now c).0)
  | inr wait ↦ rw wait (omega arith)
]

poll_all-IsRetried :
    (ps : List (Text × ℕ)) (c : FetchControl) → IsRetried c → IsRetried (poll_all ps c)
poll_all-IsRetried [] c h = h
poll_all-IsRetried ((reason, now) ∷ ps) c h =
    poll_all-IsRetried ps (poll (reason, now) c) (poll-IsRetried reason now c h)

count-poll_all :
    (ps : List (Text × ℕ)) (c : FetchControl)
    → (poll_all ps c).fetch_failure_count ≡ c.fetch_failure_count + attempts ps c
count-poll_all [] c = omega arith
count-poll_all (p ∷ ps) c = omega (arith, count-poll p c, count-poll_all ps (poll p c))

-- However often a new source whose every download fails is polled, it is tried at most four times,
-- and if it ends automatically paused, exactly four times.
pub attempts-le_four :
    (ps : List (Text × ℕ))
    → (attempts ps new_control ≤ 4)
      × ((poll_all ps new_control).fetch_status ≡ auto_paused → attempts ps new_control ≡ 4)
attempts-le_four ps = (
  omega (arith, last.at_most, counted),
  λ e. omega (arith, last.at_most, counted, last.consistent.auto_count e),
)
  where
    last : IsRetried (poll_all ps new_control)
    last = poll_all-IsRetried ps new_control (record {
      consistent = new_control-IsConsistent;
      not_manual = ground arith;
      at_most = omega arith;
    })

    counted : (poll_all ps new_control).fetch_failure_count ≡ attempts ps new_control
    counted = omega (arith, count-poll_all ps new_control)
