-- ===== src/Workflow/Safety.antt =====
-- What holds of a static submission in every reachable state, and who can publish it.
use mathlib.Core.Path.{subst}
use otwarte_dane_transportow.Common.{
  ℕ, ◌≡◌, refl, sym, ap, ◌∙◌, ◌≢◌, ◌⊎◌, inl, inr, Bool, true, false, ◌&&◌, not, Option, some, List,
  Text, Bool-cases, arith,
}
use otwarte_dane_transportow.Roles.{User, can_confirm_feeds}
use otwarte_dane_transportow.History.{
  Table, new_table, create, ordered, first, is_rejected, stage_of, is_rejection,
}
use otwarte_dane_transportow.History.Trail.{
  IsSound, stage, new_table-IsSound, create-IsSound, is_rejected-last, rejected-stage,
}
use otwarte_dane_transportow.Review.Answers.{done, >>=-eq-done, done_injective}
use otwarte_dane_transportow.Review.StageValue.{validate_stage_value}
use otwarte_dane_transportow.Review.Transition.{Moved, cause_value, apply_stage_transition}
use otwarte_dane_transportow.Review.Stages.{stage_moved, apply_stage_transition_lem}
use otwarte_dane_transportow.Review.Submissions.{StaticSubmission, Job}
use otwarte_dane_transportow.Review.Static.{
  Body, upload, perform_create, request_changes_static_source, resubmit, review, update_guard,
  update_loaded, update_with_history,
}
use otwarte_dane_transportow.Gtfs.{record_success}
use otwarte_dane_transportow.Gtfs.Outcomes.{
  record_rejection-IsSound, record_success-IsSound, record_success-stage, record_rejection-four,
  record_rejection-published,
}
use otwarte_dane_transportow.Workflow.Steps.{
  Serializer, KeepsHistory, Step, created, updated, gtfs_rejected, gtfs_accepted, advanced, Reach,
  here, next,
}
use otwarte_dane_transportow.Workflow.Advance.{
  advance_to_next_stage-IsSound, advance_to_next_stage-stage,
}

upload-IsSound :
    (actor elapsed : ℕ) (t : Table) → IsSound t → stage t ≡ 1 → IsSound (upload actor elapsed t)
unfolding upload
upload-IsSound actor elapsed t h e = create-IsSound _ elapsed t h (ground arith)

upload-stage : (actor elapsed : ℕ) (t : Table) → stage (upload actor elapsed t) ≡ 2
unfolding upload create first stage_of
upload-stage actor elapsed t = refl

-- The resubmission of the owner: nothing, or an upload of a rejected submission.
data IsResubmitted (t t' : Table) : Type 0 where
  untouched : t' ≡ t → IsResubmitted t t'
  uploaded_again :
      (actor elapsed : ℕ)
      → is_rejection (first t.rows) ≡ true
      → t' ≡ upload actor elapsed t
      → IsResubmitted t t'

-- What an update does to the history, by who makes it.
pub record IsUpdated (u : User) (b : Body) (t t' : Table) : Type 0 where
  pub sound : IsSound t'
  pub by_reviewer :
      can_confirm_feeds u ≡ true
      → (cause : Text) × (desired : Option ℕ) × (cause_value b.patch.rejection_cause ≡ done cause)
        × (validate_stage_value b.patch.stage ≡ done desired)
        × (stage t' ≡ stage_moved cause desired (stage t))
  pub by_owner :
      can_confirm_feeds u ≡ false
      → (stage t' ≡ stage t) ⊎ ((is_rejection (first t.rows) ≡ true) × (stage t' ≡ 2))

module _ (u : User) (elapsed : ℕ) (b : Body) where
  resubmit-IsResubmitted :
      (owner : Bool) (t : Table) (s : StaticSubmission)
      → s.table ≡ t
      → (owner ≡ true → is_rejection (first t.rows) ≡ true)
      → IsResubmitted t (resubmit u elapsed owner b s).0.table
  unfolding resubmit
  resubmit-IsResubmitted owner t s e r =
      elim (Bool-cases (owner && request_changes_static_source b.content_keys)) [
        | inl sent ↦
            rw sent (uploaded_again u.id elapsed (r (ground arith)) (ap (upload u.id elapsed) e))
        | inr not_sent ↦ rw not_sent (untouched e)
      ]

  moved-IsUpdated :
      (t : Table) (m : Moved)
      → can_confirm_feeds u ≡ true
      → IsSound t
      → apply_stage_transition u.id (some (ordered t.rows)) elapsed b.patch t ≡ done m
      → IsUpdated u b t m.table
  moved-IsUpdated t m c h e =
      let (cause, desired, e₁, e₂, moved) = apply_stage_transition_lem u.id elapsed b.patch t h e in
      record {
        sound = moved.sound;
        by_reviewer = λ c'. (cause, desired, e₁, e₂, moved.reached);
        by_owner = λ c'. absurd (ground (arith, c, c'));
      }

  resubmitted-IsUpdated :
      (t t' : Table)
      → can_confirm_feeds u ≡ false
      → IsSound t
      → IsResubmitted t t'
      → IsUpdated u b t t'
  resubmitted-IsUpdated t t' c h (untouched e) = subst (IsUpdated u b t) (sym e) (record {
    sound = h;
    by_reviewer = λ c'. absurd (ground (arith, c, c'));
    by_owner = λ c'. inl refl;
  })
  resubmitted-IsUpdated t t' c h (uploaded_again actor at r e) =
      subst (IsUpdated u b t) (sym e) (record {
        sound = upload-IsSound actor at t h (rejected-stage t h r);
        by_reviewer = λ c'. absurd (ground (arith, c, c'));
        by_owner = λ c'. inr (r, upload-stage actor at t);
      })

  -- The review at the end of an update, on the table that the resubmission left.
  review-IsUpdated :
      (t : Table) (s s' : StaticSubmission)
      → IsSound t
      → IsResubmitted t s.table
      → (can_confirm_feeds u ≡ true → s.table ≡ t)
      → review u elapsed (some (ordered t.rows)) b s ≡ done s'
      → IsUpdated u b t s'.table
  unfolding review
  review-IsUpdated t s s' h r k e = elim (Bool-cases (can_confirm_feeds u)) [
    | inl c ↦
        let (m, e₁, e₂) =
          >>=-eq-done (apply_stage_transition u.id (some (ordered t.rows)) elapsed b.patch s.table)
            _ (rw c at e) in
        let e₃ =
          subst
            (λ x. apply_stage_transition u.id (some (ordered t.rows)) elapsed b.patch x ≡ done m)
            (k c) e₁ in
        subst (IsUpdated u b t) (ap (λ (x : StaticSubmission). x.table) (done_injective e₂))
          (moved-IsUpdated t m c h e₃)
    | inr c ↦
        let e₁ : s.table ≡ s'.table =
          ap (λ (x : StaticSubmission). x.table) (done_injective (rw c at e)) in
        subst (IsUpdated u b t) e₁ (resubmitted-IsUpdated t s.table c h r)
  ]

  resubmit-reviewer :
      (owner : Bool) (s : StaticSubmission)
      → owner ≡ false
      → (resubmit u elapsed owner b s).0.table ≡ s.table
  unfolding resubmit
  resubmit-reviewer owner s e = rw e refl

  -- From the saved submission on.
  saved-IsUpdated :
      (s saved s' : StaticSubmission)
      → IsSound s.table
      → saved.table ≡ s.table
      → let rows = some (ordered s.table.rows) in
        review u elapsed rows b
            (resubmit u elapsed (is_rejected rows s.table && not (can_confirm_feeds u)) b saved).0
          ≡ done s'
        → IsUpdated u b s.table s'.table
  saved-IsUpdated s saved s' h k e =
      review-IsUpdated s.table _ s' h
        (resubmit-IsResubmitted owner s.table saved k
          (λ o. ground (arith, o, is_rejected-last s.table h)))
        (λ c. resubmit-reviewer owner saved (rw c (ground arith)) ∙ k) e
    where
      owner : Bool
      owner = is_rejected (some (ordered s.table.rows)) s.table && not (can_confirm_feeds u)

abbrev table_of : StaticSubmission × List Job → Table
table_of r = r.0.table

-- What an update that succeeds does to a sound history, for any serializer that leaves the history
-- alone: the history is sound again; a reviewer moves the submission to stage 1 with a cause, and
-- else to the stage that was sent, if any; and anyone else leaves the stage as it is, or brings a
-- rejected submission to stage 2.
pub update_with_history-IsUpdated :
    (u : User) (serializer : Serializer) (elapsed : ℕ) (b : Body) (s s' : StaticSubmission)
    (jobs : List Job)
    → KeepsHistory serializer
    → IsSound s.table
    → update_with_history u serializer elapsed b s ≡ done (s', jobs)
    → IsUpdated u b s.table s'.table
unfolding update_with_history update_loaded
update_with_history-IsUpdated u serializer elapsed b s s' jobs keeps h e =
    let (_, _, e₁) = >>=-eq-done (update_guard u b) _ e in
    let (saved, e₂, e₃) = >>=-eq-done (serializer _ _ s) _ e₁ in
    let (s'', e₄, e₅) = >>=-eq-done (review u elapsed _ b _) _ e₃ in
    subst (IsUpdated u b s.table) (ap table_of (done_injective e₅))
      (saved-IsUpdated u elapsed b s saved.0 s'' h (keeps _ _ s saved e₂) e₄)

created-IsSound :
    (u : User) (elapsed : ℕ) (s : StaticSubmission)
    → s.table ≡ new_table
    → IsSound (perform_create u elapsed s).table
unfolding perform_create
created-IsSound u elapsed s e =
    subst (λ t. IsSound (upload u.id elapsed t)) (sym e)
      (upload-IsSound u.id elapsed new_table new_table-IsSound (unfold first stage_of in refl))

-- Every step keeps the history sound.
pub Step-IsSound : {s s' : StaticSubmission} → Step s s' → IsSound s.table → IsSound s'.table
Step-IsSound (created u elapsed s e) h = created-IsSound u elapsed s e
Step-IsSound (updated u serializer elapsed b s s' jobs keeps e) h =
    (update_with_history-IsUpdated u serializer elapsed b s s' jobs keeps h e).sound
Step-IsSound (gtfs_rejected reason elapsed s) h = record_rejection-IsSound s.table elapsed h reason
Step-IsSound (gtfs_accepted elapsed s) h = record_success-IsSound s.table elapsed h
Step-IsSound (advanced actor elapsed s) h = advance_to_next_stage-IsSound s.table h actor elapsed

-- In every state that a submission reaches from its creation by updates that nothing overlaps,
-- verdicts and the action of the admin site, in any order:
-- ids and times grow with the rows, every row begins at the stage where the one before it ended (the
-- first at stage 1), stages lie between 1 and 4, a rejection ends at stage 1, and exactly the
-- completions end at stage 4.
pub Reach-IsSound : {s s' : StaticSubmission} → s.table ≡ new_table → Reach s s' → IsSound s'.table
Reach-IsSound e here = subst IsSound (sym e) new_table-IsSound
Reach-IsSound e (next r st) = Step-IsSound st (Reach-IsSound e r)

-- The step is an update by a reviewer.
abbrev pub ByReviewer : {s s' : StaticSubmission} → Step s s' → Type 0
ByReviewer (created u elapsed s e) = ⊥
ByReviewer (updated u serializer elapsed b s s' jobs keeps e) = can_confirm_feeds u ≡ true
ByReviewer (gtfs_rejected reason elapsed s) = ⊥
ByReviewer (gtfs_accepted elapsed s) = ⊥
ByReviewer (advanced actor elapsed s) = ⊥

-- The step is the action of the admin site on a submission that is at stage 3.
abbrev pub ByAction : {s s' : StaticSubmission} → Step s s' → Type 0
ByAction (created u elapsed s e) = ⊥
ByAction (updated u serializer elapsed b s s' jobs keeps e) = ⊥
ByAction (gtfs_rejected reason elapsed s) = ⊥
ByAction (gtfs_accepted elapsed s) = ⊥
ByAction (advanced actor elapsed s) = stage s.table ≡ 3

verdict-accepted_stage :
    (t : Table) (elapsed : ℕ)
    → IsSound t
    → (stage t ≡ 4 → stage (record_success elapsed t) ≡ 4)
      × (stage (record_success elapsed t) ≡ 4 → stage t ≡ 4)
verdict-accepted_stage t elapsed h = ground (arith, record_success-stage t elapsed h)

-- Of the steps that create history rows, where an update is not overlapped by another step: only an
-- update by a reviewer, or the action of the admin site on a submission at stage 3, takes a sound
-- submission to stage 4, and only an update by a reviewer takes it away from there.
pub Step-publishes :
    {s s' : StaticSubmission} (st : Step s s')
    → IsSound s.table
    → (stage s.table ≢ 4 → stage s'.table ≡ 4 → ByReviewer st ⊎ ByAction st)
      × (stage s.table ≡ 4 → stage s'.table ≢ 4 → ByReviewer st)
Step-publishes (created u elapsed s e) h = (
  λ k l. absurd (four_not_two (sym l ∙ created_stage)),
  λ k l. absurd (four_not_one (sym k ∙ ap stage e)),
)
  where
    created_stage : stage (perform_create u elapsed s).table ≡ 2
    created_stage = unfold perform_create in upload-stage u.id elapsed s.table

    four_not_two : ◌≡◌ {A = ℕ} 4 2 → ⊥
    four_not_two x = omega arith

    four_not_one : 4 ≡ stage new_table → ⊥
    four_not_one x = unfold first stage_of in omega arith
Step-publishes (updated u serializer elapsed b s s' jobs keeps e) h =
    elim (Bool-cases (can_confirm_feeds u)) [
      | inl c ↦ (λ k l. inl c, λ k l. c)
      | inr c ↦
          let moved =
            (update_with_history-IsUpdated u serializer elapsed b s s' jobs keeps h e).by_owner c in
          (λ k l. absurd (ground arith), λ k l. absurd (ground (arith, rejected-stage s.table h)))
    ]
Step-publishes (gtfs_rejected reason elapsed s) h = (
  (λ k l. absurd (k (record_rejection-four s.table elapsed h reason l))),
  (λ k l. absurd (l (ap stage (record_rejection-published s.table elapsed h reason k) ∙ k))),
)
Step-publishes (gtfs_accepted elapsed s) h = (
  (λ k l. absurd (k ((verdict-accepted_stage s.table elapsed h).1 l))),
  (λ k l. absurd (l ((verdict-accepted_stage s.table elapsed h).0 k))),
)
Step-publishes (advanced actor elapsed s) h =
    let moved = advance_to_next_stage-stage s.table h actor elapsed in
    (λ k l. inr (ground (arith, moved)), λ k l. absurd (ground (arith, moved)))
