-- ===== src/Realtime/Recorded.antt =====
-- What a verification does to the history of a sound submission.
use otwarte_dane_transportow.Common.{
  ℕ, ◌≤◌, ◌<◌, ◌≢◌, ◌≡◌, refl, sym, ◌∙◌, ap, inl, inr, true, Option, none, some, List, [], ◌∷◌, leb,
  if◌then◌else◌, Bool-cases, arith,
}
use otwarte_dane_transportow.History.{
  Table, HistoryRow, Reason, create, ordered, first, current_stage, rejection_reasons, stage_of,
  is_rejection, reasons_of,
}
use otwarte_dane_transportow.History.Trail.{stage}
use otwarte_dane_transportow.Realtime.Trail.{
  IsSound, create-IsSound, current_stage-last, rejection_reasons-last, rejected-stage,
}
use otwarte_dane_transportow.Realtime.Codes.{same_reasons}
use otwarte_dane_transportow.Realtime.Same.{same_list_sound}
use otwarte_dane_transportow.Realtime.Verify.{
  RealtimeSubmission, World, verified, failed_published, refused, reject, advance, concluded,
  examined, validate_realtime_submission,
}

known_reasons :
    (o : Option (List Reason)) (rs : List Reason) → same_reasons o rs ≡ true → o ≡ some rs
unfolding same_reasons
known_reasons none rs e = absurd cc
known_reasons (some x) rs e = ap some (same_list_sound x rs e)

reasons-rejection :
    (o : Option HistoryRow) {rs : List Reason} → reasons_of o ≡ some rs → is_rejection o ≡ true
unfolding reasons_of is_rejection
reasons-rejection none e = absurd cc
reasons-rejection (some r) e = ground arith

module _ (t : Table) (h : IsSound t) where
  pub advance-IsSound : (n elapsed : ℕ) → 1 ≤ n → n < 4 → IsSound (advance n elapsed t)
  unfolding advance
  advance-IsSound n elapsed l m =
      elim (Bool-cases (leb n (current_stage (some (ordered t.rows)) t))) [
        | inl late ↦ rw late h
        | inr early ↦
            rw early (create-IsSound _ elapsed t h (ground (arith, current_stage-last t h)))
      ]

  pub advance-stage :
      (n elapsed : ℕ) → stage (advance n elapsed t) ≡ (if leb n (stage t) then stage t else n)
  unfolding advance create first stage_of
  advance-stage n elapsed = ground (arith, current_stage-last t h)

  pub advance-late : (n elapsed : ℕ) → n ≤ stage t → advance n elapsed t ≡ t
  unfolding advance
  advance-late n elapsed l = ground (arith, current_stage-last t h)

  pub reject-IsSound : (rs : List Reason) (elapsed : ℕ) → IsSound ((reject rs elapsed t).1)
  unfolding reject
  reject-IsSound rs elapsed = elim (Bool-cases (leb 4 (current_stage (some (ordered t.rows)) t))) [
    | inl published ↦ rw published h
    | inr open_ ↦
        rw open_
          (elim (Bool-cases (same_reasons (rejection_reasons (some (ordered t.rows)) t) rs)) [
            | inl known ↦ rw known h
            | inr news ↦
                rw news (create-IsSound _ elapsed t h (ground (arith, current_stage-last t h)))
          ])
  ]

  pub reject-published :
      (rs : List Reason) (elapsed : ℕ)
      → stage t ≡ 4
      → reject rs elapsed t ≡ (failed_published rs, t)
  unfolding reject
  reject-published rs elapsed k = rw (current_stage-last t h, k) refl

  pub reject-open :
      (rs : List Reason) (elapsed : ℕ)
      → stage t < 4
      → let (v, t') = reject rs elapsed t in
        (v ≡ refused rs) × (stage t' ≡ 1) × (reasons_of (first t'.rows) ≡ some rs)
  unfolding reject
  reject-open rs elapsed k = elim (Bool-cases (leb 4 (current_stage (some (ordered t.rows)) t))) [
    | inl published ↦ absurd (ground (arith, current_stage-last t h))
    | inr open_ ↦
        rw open_
          (elim (Bool-cases (same_reasons (rejection_reasons (some (ordered t.rows)) t) rs)) [
            | inl known ↦ rw known (
                let e : reasons_of (first t.rows) ≡ some rs =
                  sym (rejection_reasons-last t h) ∙ known_reasons _ rs known in
                (refl, rejected-stage t h (reasons-rejection (first t.rows) e), e))
            | inr news ↦ rw news (unfold create first stage_of reasons_of in (refl, refl, refl))
          ])
  ]

-- A verification of a submission with a sound history (the row of its creation, from stage 0 to 1, and
-- rows that each begin where the one before ended) keeps it sound. A published submission keeps
-- its history as it is. Any other is rejected to stage 1 for exactly the faults that were found, or,
-- with no fault, ends at stage 3.
pub validate_realtime_submission_lem :
    (w : World) (published : List ℕ) (started elapsed : ℕ) (s : RealtimeSubmission)
    → IsSound s.table
    → let (reasons, eps) = examined w published s in
      let (v, s') = validate_realtime_submission w published started elapsed s in
      IsSound s'.table
      × (stage s.table ≡ 4 → s'.table ≡ s.table)
      × (stage s.table < 4
          → reasons ≢ []
          → (v ≡ refused reasons)
            × (stage s'.table ≡ 1)
            × (reasons_of (first s'.table.rows) ≡ some reasons))
      × (reasons ≡ [] → (v ≡ verified) × (stage s.table < 4 → stage s'.table ≡ 3))
unfolding validate_realtime_submission
validate_realtime_submission_lem w published started elapsed s h = go (examined w published s).0
  where
    t : Table
    t = advance 2 started s.table

    sound : IsSound t
    sound = advance-IsSound s.table h 2 started (omega arith) (omega arith)

    same : stage s.table ≡ 4 → t ≡ s.table
    same k = advance-late s.table h 2 started (omega (arith, k))

    early : stage s.table < 4 → stage t < 4
    early k = ground (arith, advance-stage s.table h 2 started)

    go :
        (reasons : List Reason)
        → let (v, t') = concluded reasons elapsed t in
          IsSound t'
          × (stage s.table ≡ 4 → t' ≡ s.table)
          × (stage s.table < 4
              → reasons ≢ []
              → (v ≡ refused reasons)
                × (stage t' ≡ 1)
                × (reasons_of (first t'.rows) ≡ some reasons))
          × (reasons ≡ [] → (v ≡ verified) × (stage s.table < 4 → stage t' ≡ 3))
    go [] = (
      advance-IsSound t sound 3 elapsed (omega arith) (omega arith),
      λ k. advance-late t sound 3 elapsed (omega (arith, ap stage (same k), k)) ∙ same k,
      (λ k n. absurd (n refl)),
      λ e. (refl, λ k. ground (arith, advance-stage t sound 3 elapsed, early k)),
    )
    go (r ∷ rs) = (
      reject-IsSound t sound (r ∷ rs) elapsed,
      λ k.
          ap (λ x. x.1) (reject-published t sound (r ∷ rs) elapsed (ap stage (same k) ∙ k))
          ∙ same k,
      (λ k n. reject-open t sound (r ∷ rs) elapsed (early k)),
      λ e. absurd cc,
    )
