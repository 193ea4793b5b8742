-- ===== src/Review/Stages.antt =====
-- The transition keeps the history a trail, and what each of its branches does.
use otwarte_dane_transportow.Common.{
  ℕ, ◌≤◌, ◌≡◌, refl, ◌≢◌, ◌↔◌, inl, inr, true, false, Option, none, some, [], ◌∷◌, ◌==◌, Text,
  Bool-cases, arith,
}
use mathlib.Core.Path.{subst}
use otwarte_dane_transportow.History.{Table, create, ordered, first, current_stage, stage_of}
use otwarte_dane_transportow.History.Trail.{IsSound, stage, create-IsSound, current_stage-last}
use otwarte_dane_transportow.Review.Answers.{done, >>=-eq-done, done_injective}
use otwarte_dane_transportow.Review.StageValue.{
  RawStage, ℤ, pos, negsuc, missing, int, bool, float, nan, infinite, text, other, in_range,
  int_or_error, int_of_text, validate_stage_value,
}
use otwarte_dane_transportow.Review.Transition.{
  Patch, Moved, cause_value, transition, apply_stage_transition,
}

abbrev pub InRange : Option ℕ → Type 0
InRange none = Unit
InRange (some n) = (1 ≤ n) × (n ≤ 4)

in_range_lem : (n : ℤ) {d : Option ℕ} → in_range n ≡ done d → InRange d
unfolding in_range
in_range_lem (pos n) {d = none} h = tt
in_range_lem (pos n) {d = some m} h = ground arith
in_range_lem (negsuc n) {d = none} h = tt
in_range_lem (negsuc n) {d = some m} h = ground arith

int_or_error-InRange : (n : Option ℤ) {d : Option ℕ} → int_or_error n ≡ done d → InRange d
int_or_error-InRange none h = absurd (ground arith)
int_or_error-InRange (some n) h = in_range_lem n h

-- A stage that is accepted, from whatever value the body holds, lies between 1 and 4.
pub validate_stage_value-InRange :
    (v : RawStage) {d : Option ℕ} → validate_stage_value v ≡ done d → InRange d
unfolding validate_stage_value
validate_stage_value-InRange missing {d = none} h = tt
validate_stage_value-InRange missing {d = some n} h = absurd (ground arith)
validate_stage_value-InRange (int n) h = in_range_lem n h
validate_stage_value-InRange (bool true) h = in_range_lem (pos 1) h
validate_stage_value-InRange (bool false) h = in_range_lem (pos 0) h
validate_stage_value-InRange (float n) h = in_range_lem n h
validate_stage_value-InRange nan h = absurd (ground arith)
validate_stage_value-InRange infinite h = absurd (ground arith)
validate_stage_value-InRange (text s) h = int_or_error-InRange (int_of_text s) h
validate_stage_value-InRange other h = absurd (ground arith)

-- The new stage: 1 for a rejection, the desired stage where one is sent, or the stage as it was.
abbrev pub stage_moved : Text → Option ℕ → ℕ → ℕ
stage_moved [] none current = current
stage_moved [] (some n) current = n
stage_moved (c ∷ cause) desired current = 1

module _ (actor elapsed : ℕ) (t : Table) (h : IsSound t) where
  moved : Text → Option ℕ → Moved
  moved cause desired = transition actor (some (ordered t.rows)) elapsed cause desired t

  transition-IsSound :
      (cause : Text) (desired : Option ℕ) → InRange desired → IsSound (moved cause desired).table
  unfolding moved transition
  transition-IsSound (c ∷ cs) desired k =
      create-IsSound _ elapsed t h (ground (arith, current_stage-last t h))
  transition-IsSound [] none k = h
  transition-IsSound [] (some n) k =
      elim (Bool-cases (n == current_stage (some (ordered t.rows)) t)) [
        | inl same ↦ rw same h
        | inr differs ↦
            rw differs (create-IsSound _ elapsed t h (ground (arith, current_stage-last t h)))
      ]

  transition-stage :
      (cause : Text) (desired : Option ℕ)
      → stage (moved cause desired).table ≡ stage_moved cause desired (stage t)
  unfolding moved transition create first stage_of
  transition-stage (c ∷ cs) desired = refl
  transition-stage [] none = refl
  transition-stage [] (some n) = ground (arith, current_stage-last t h)

  transition-published :
      (cause : Text) (desired : Option ℕ)
      → ((moved cause desired).published ≡ true)
        ↔ ((cause ≡ []) × (desired ≡ some 4) × (stage t ≢ 4))
  unfolding moved transition
  transition-published (c ∷ cs) desired = (λ e. absurd (ground arith), λ e. absurd (ground arith))
  transition-published [] none = (λ e. absurd (ground arith), λ e. absurd (ground arith))
  transition-published [] (some n) = (published_then, published_if)
    where
      published_then :
          (moved [] (some n)).published ≡ true
          → (◌≡◌ {A = Text} [] []) × (some n ≡ some 4) × (stage t ≢ 4)
      published_then e = ground (arith, current_stage-last t h)

      published_if :
          (◌≡◌ {A = Text} [] []) × (some n ≡ some 4) × (stage t ≢ 4)
          → (moved [] (some n)).published ≡ true
      published_if e = ground (arith, current_stage-last t h)

-- What a transition leaves, of the history `t`, for a cause and a desired stage.
pub record IsMoved (t : Table) (cause : Text) (desired : Option ℕ) (m : Moved) : Type 0 where
  pub sound : IsSound m.table
  pub reached : stage m.table ≡ stage_moved cause desired (stage t)
  pub publishes : (m.published ≡ true) ↔ ((cause ≡ []) × (desired ≡ some 4) × (stage t ≢ 4))

-- What a transition that succeeds does to a sound history, with the rows that the object holds
-- being those of the table: the cause and the stage were read from the body, the history is sound
-- again, the stage is 1 if there is a cause and else the desired one, if any, and the publishing
-- hook is called exactly if the submission reaches stage 4 from another stage.
pub apply_stage_transition_lem :
    (actor elapsed : ℕ) (p : Patch) (t : Table) {m : Moved}
    → IsSound t
    → apply_stage_transition actor (some (ordered t.rows)) elapsed p t ≡ done m
    → (cause : Text) × (desired : Option ℕ) × (cause_value p.rejection_cause ≡ done cause)
      × (validate_stage_value p.stage ≡ done desired)
      × IsMoved t cause desired m
unfolding apply_stage_transition moved
apply_stage_transition_lem actor elapsed p t h e =
    let (cause, e₁, e₂) = >>=-eq-done (cause_value p.rejection_cause) _ e in
    let (desired, e₃, e₄) = >>=-eq-done (validate_stage_value p.stage) _ e₂ in
    (
      cause,
      desired,
      e₁,
      e₃,
      subst (IsMoved t cause desired) (done_injective e₄) (record {
        sound =
            transition-IsSound actor elapsed t h cause desired
              (validate_stage_value-InRange p.stage e₃);
        reached = transition-stage actor elapsed t h cause desired;
        publishes = transition-published actor elapsed t h cause desired;
      }),
    )
