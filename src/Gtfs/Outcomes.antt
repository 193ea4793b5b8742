-- ===== src/Gtfs/Outcomes.antt =====
-- What a verdict of validation does to a sound history.
use otwarte_dane_transportow.Common.{
  ℕ, ◌≤◌, ◌<◌, ◌≡◌, refl, sym, ◌∙◌, inl, inr, true, false, Option, none, some, leb, ltb,
  if◌then◌else◌, Text, text_eq_refl, text_eq_sound, ap, non_empty, Bool-cases, arith,
}
use otwarte_dane_transportow.History.{
  Table, HistoryRow, create, ordered, first, current_stage, rejection_cause, stage_of, is_rejection,
  cause_of,
}
use otwarte_dane_transportow.History.Trail.{
  IsSound, stage, create-IsSound, current_stage-last, rejection_cause-last, stage_bounds,
  rejected-stage,
}
use otwarte_dane_transportow.Gtfs.Verdict.{is_cause, record_rejection, record_success}

known_cause : (o : Option Text) (reason : Text) → is_cause o reason ≡ true → o ≡ some reason
known_cause none reason e = absurd (ground arith)
known_cause (some c) reason e = ap some (text_eq_sound c reason e)

cause-rejection : (o : Option HistoryRow) {c : Text} → cause_of o ≡ some c → is_rejection o ≡ true
unfolding cause_of is_rejection
cause-rejection none e = absurd (ground arith)
cause-rejection (some r) e = ground arith

module _ (t : Table) (elapsed : ℕ) (h : IsSound t) where
  pub record_rejection-IsSound : (reason : Text) → IsSound (record_rejection reason elapsed t)
  unfolding record_rejection
  record_rejection-IsSound reason =
      elim (Bool-cases (leb 4 (current_stage (some (ordered t.rows)) t))) [
        | inl published ↦ rw published h
        | inr open_ ↦
            rw open_
              (elim (Bool-cases (is_cause (rejection_cause (some (ordered t.rows)) t) reason)) [
                | inl known ↦ rw known h
                | inr news ↦
                    rw news (create-IsSound _ elapsed t h (ground (arith, current_stage-last t h)))
              ])
      ]

  pub record_success-IsSound : IsSound (record_success elapsed t)
  unfolding record_success
  record_success-IsSound = elim (Bool-cases (ltb (current_stage (some (ordered t.rows)) t) 3)) [
    | inl early ↦ rw early (create-IsSound _ elapsed t h (ground (arith, current_stage-last t h)))
    | inr late ↦ rw late h
  ]

  -- The submission after a rejection was recorded, or was there before.
  record_rejection-reached :
      (reason : Text)
      → stage t < 4
      → non_empty reason ≡ true
      → (stage (record_rejection reason elapsed t) ≡ 1)
        × (cause_of (first (record_rejection reason elapsed t).rows) ≡ some reason)
  unfolding record_rejection
  record_rejection-reached reason k n =
      elim (Bool-cases (leb 4 (current_stage (some (ordered t.rows)) t))) [
        | inl published ↦ absurd (ground (arith, current_stage-last t h))
        | inr open_ ↦
            rw open_
              (elim (Bool-cases (is_cause (rejection_cause (some (ordered t.rows)) t) reason)) [
                | inl known ↦ rw known (
                    let e : cause_of (first t.rows) ≡ some reason =
                      sym (rejection_cause-last t h) ∙ known_cause _ reason known in
                    (rejected-stage t h (cause-rejection (first t.rows) e), e))
                | inr news ↦ rw news (unfold create first stage_of cause_of in (refl, rw n refl))
              ])
      ]

  pub record_rejection-four :
      (reason : Text) → stage (record_rejection reason elapsed t) ≡ 4 → stage t ≡ 4
  unfolding record_rejection create first stage_of
  record_rejection-four reason e = ground (arith, current_stage-last t h)

  pub record_rejection-published :
      (reason : Text) → stage t ≡ 4 → record_rejection reason elapsed t ≡ t
  unfolding record_rejection
  record_rejection-published reason k = rw (current_stage-last t h, k) refl

  pub record_success-stage :
      stage (record_success elapsed t) ≡ (if ltb (stage t) 3 then 3 else stage t)
  unfolding record_success create first stage_of
  record_success-stage = ground (arith, current_stage-last t h)

-- A verdict that the submission has already is not recorded again.
record_rejection-known :
    (t : Table) (elapsed : ℕ) (reason : Text)
    → IsSound t
    → cause_of (first t.rows) ≡ some reason
    → record_rejection reason elapsed t ≡ t
unfolding record_rejection
record_rejection-known t elapsed reason h e =
    rw
      (
        current_stage-last t h,
        rejected-stage t h (cause-rejection (first t.rows) e),
        rejection_cause-last t h,
        e,
      )
      (rw (text_eq_refl reason) refl)

-- A failed validation with a non-empty reason leaves the history of a published submission as it
-- is; any other submission is at stage 1 afterwards, rejected for that reason; and the same verdict
-- once more changes nothing.
pub record_rejection_lem :
    (t : Table) (elapsed later : ℕ) (reason : Text)
    → IsSound t
    → non_empty reason ≡ true
    → let t' = record_rejection reason elapsed t in
      (stage t ≡ 4 → t' ≡ t)
      × (stage t < 4 → (stage t' ≡ 1) × (cause_of (first t'.rows) ≡ some reason))
      × (record_rejection reason later t' ≡ t')
record_rejection_lem t elapsed later reason h n = (
  record_rejection-published t elapsed h reason,
  (λ k. record_rejection-reached t elapsed h reason k n),
  again,
)
  where
    t' : Table
    t' = record_rejection reason elapsed t

    sound : IsSound t'
    sound = record_rejection-IsSound t elapsed h reason

    published_stage : ltb (stage t) 4 ≡ false → 4 ≤ stage t
    published_stage e = ground arith

    again : record_rejection reason later t' ≡ t'
    again = elim (Bool-cases (ltb (stage t) 4)) [
      | inl open_ ↦
          record_rejection-known t' later reason sound
            ((record_rejection-reached t elapsed h reason (ground arith) n).1)
      | inr published ↦ record_rejection-published t' later sound reason (
          rw
            (record_rejection-published t elapsed h reason
              (omega (arith, (stage_bounds t h).1, published_stage published)))
            (omega (arith, (stage_bounds t h).1, published_stage published)))
    ]
