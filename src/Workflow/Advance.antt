-- ===== src/Workflow/Advance.antt =====
-- `FeedSubmissionAdmin.advance_to_next_stage` of data_manager/admin.py, for one submission: the action
-- of the admin site, outside the API and its update handler.
use otwarte_dane_transportow.Common.{
  ℕ, ◌+◌, ◌<◌, ◌≡◌, ◌≢◌, ◌⊎◌, refl, ap, inl, inr, ◌&&◌, not, none, some, [], ltb, ◌==◌,
  if◌then◌else◌, Bool-cases, arith,
}
use otwarte_dane_transportow.History.{
  Table, EventType, rejected, completed, stage_advanced, create, first, current_stage, is_rejected,
  stage_of, latest_history_entry,
}
use otwarte_dane_transportow.History.Trail.{IsSound, stage, create-IsSound, current_stage-last}

abbrev pub event_of : ℕ → EventType
event_of next_stage = if next_stage == 4 then completed else stage_advanced

unfoldable pub advance_to_next_stage : ℕ → ℕ → Table → Table
advance_to_next_stage actor elapsed t =
    let current = current_stage none t in
    if ltb current 4 && not (is_rejected none t)
    then create
        (record {
          event_type = event_of (current + 1);
          stage_before = current;
          stage_after = current + 1;
          actor = some actor;
          cause = [];
          reasons = none;
        })
        elapsed t
    else t

event_of-rejected : (n : ℕ) → event_of n ≢ rejected
event_of-rejected n h = ground arith

event_of-completed : (n : ℕ) → event_of n ≡ completed → n ≡ 4
event_of-completed n h = ground arith

module _ (t : Table) (h : IsSound t) where
  read_stage : current_stage none t ≡ stage t
  unfolding current_stage latest_history_entry
  read_stage = current_stage-last t h

  -- The action keeps the history sound.
  pub advance_to_next_stage-IsSound :
      (actor elapsed : ℕ) → IsSound (advance_to_next_stage actor elapsed t)
  unfolding advance_to_next_stage
  advance_to_next_stage-IsSound actor elapsed =
      elim (Bool-cases (ltb (current_stage none t) 4 && not (is_rejected none t))) [
        | inl open_ ↦
            let early : current_stage none t < 4 = ground arith in
            let n = current_stage none t + 1 in
            rw open_ (
              create-IsSound _ elapsed t h (record {
                before = read_stage;
                least = omega arith;
                most = omega (arith, early);
                rejects = λ e. absurd (event_of-rejected n e);
                completes = λ e. event_of-completed n e;
                only_completes = λ e. ground (arith, e);
              }))
        | inr closed ↦ rw closed h
      ]

  -- It moves a submission by one stage, or not at all.
  pub advance_to_next_stage-stage :
      (actor elapsed : ℕ)
      → let t' = advance_to_next_stage actor elapsed t in
        (stage t' ≡ stage t) ⊎ ((stage t' ≡ stage t + 1) × (stage t < 4))
  unfolding advance_to_next_stage
  advance_to_next_stage-stage actor elapsed =
      elim (Bool-cases (ltb (current_stage none t) 4 && not (is_rejected none t))) [
        | inl open_ ↦
            let early : current_stage none t < 4 = ground arith in
            rw open_ (
              inr (
                (unfold create first stage_of in ap (λ x. x + 1) read_stage),
                omega (arith, early, read_stage),
              ))
        | inr closed ↦ rw closed (inl refl)
      ]
