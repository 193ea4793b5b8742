-- ===== src/Write/Contract.antt =====
-- The handler of an update with `FeedSubmissionWriteSerializer` itself.
use mathlib.Core.Path.{subst}
use otwarte_dane_transportow.Common.{
  ℕ, ◌≡◌, sym, ap, ◌∙◌, Bool, true, false, Option, some, List, [], ◌++◌, inl, inr, if-cases, arith,
}
use otwarte_dane_transportow.Roles.{User, can_confirm_feeds, can_edit_static_feed_source}
use otwarte_dane_transportow.History.{HistoryRow, ordered, is_rejected}
use otwarte_dane_transportow.Review.Answers.{Outcome, done, ◌>>=◌, >>=-eq-done, done_injective}
use otwarte_dane_transportow.Review.Submissions.{StaticSubmission, Job}
use otwarte_dane_transportow.Review.Transition.{apply_stage_transition}
use otwarte_dane_transportow.Review.Static.{
  Body, ContentKey, rights_view, resubmit, review, update_guard, update_with_history, update_loaded,
}
use otwarte_dane_transportow.Write.Sent.{Attrs}
use otwarte_dane_transportow.Write.Saving.{write_serializer, with_attrs}
use otwarte_dane_transportow.Write.Results.{write_serializer-done}
use otwarte_dane_transportow.Write.Restricted.{IsKept, write_serializer-IsKept}
use otwarte_dane_transportow.Workflow.Steps.{KeepsHistory, Step, updated}

-- The serializer leaves the history of a submission alone.
pub write_serializer-KeepsHistory :
    (sent : List ContentKey) (a : Attrs) (partial : Bool) (pk : ℕ)
    → KeepsHistory (write_serializer sent a partial pk)
unfolding with_attrs
write_serializer-KeepsHistory sent a partial pk restricted deferred s saved h =
    let (_, (_, _, q)) = write_serializer-done sent a partial pk restricted deferred s saved h in
    ap (λ (r : StaticSubmission × List Job). r.0.table) (sym q)

-- An update with the serializer is a step of a submission's life.
pub update-Step :
    (u : User) (a : Attrs) (partial : Bool) (pk elapsed : ℕ) (b : Body) (s s' : StaticSubmission)
    (jobs : List Job)
    → update_with_history u (write_serializer b.content_keys a partial pk) elapsed b s
      ≡ done (s', jobs)
    → Step s s'
update-Step u a partial pk elapsed b s s' jobs =
    updated u (write_serializer b.content_keys a partial pk) elapsed b s s' jobs
      (write_serializer-KeepsHistory b.content_keys a partial pk)

review-IsKept :
    (u : User) (elapsed : ℕ) (rows : Option (List HistoryRow)) (b : Body)
    (s t t' : StaticSubmission)
    → IsKept s t
    → review u elapsed rows b t ≡ done t'
    → IsKept s t'
unfolding review
review-IsKept u elapsed rows b s t t' k h = elim (if-cases (can_confirm_feeds u) _ (done t) h) [
  | inl (_, q) ↦
      (let (moved, _, e) =
          >>=-eq-done (apply_stage_transition u.id rows elapsed b.patch t.table) _ q in
        subst (IsKept s) (done_injective e) (record {
          kept_name = k.kept_name;
          kept_organization = k.kept_organization;
          kept_data_type = k.kept_data_type;
          kept_entry = k.kept_entry;
        }))
  | inr (_, q) ↦ subst (IsKept s) (done_injective q) k
]

-- The handler after its serializer.
abbrev after_save :
    User
    → ℕ
    → Bool
    → Body
    → StaticSubmission
    → StaticSubmission × List Job
    → Outcome (StaticSubmission × List Job)
after_save u elapsed owner b s saved =
    let r = resubmit u elapsed owner b (saved.0) in
    review u elapsed (some (ordered s.table.rows)) b (r.0) >>= λ s'. done (s', saved.1 ++ r.1)

frozen :
    (u : User) (a : Attrs) (partial : Bool) (pk elapsed : ℕ) (b : Body) (s s' : StaticSubmission)
    (jobs : List Job) (restricted owner : Bool)
    → restricted ≡ true
    → owner ≡ false
    → (write_serializer b.content_keys a partial pk restricted owner s
        >>= after_save u elapsed owner b s)
      ≡ done (s', jobs)
    → IsKept s s' × (jobs ≡ [])
unfolding resubmit
frozen u a partial pk elapsed b s s' jobs false owner r o h = cc
frozen u a partial pk elapsed b s s' jobs true true r o h = cc
frozen u a partial pk elapsed b s s' jobs true false r o h =
    let ((t, more), saved, h1) =
      >>=-eq-done (write_serializer b.content_keys a partial pk true false s)
        (after_save u elapsed false b s) h in
    let (kept, quiet) = write_serializer-IsKept b.content_keys a partial pk false s t more saved in
    let (t', reviewed, q) = >>=-eq-done (review u elapsed (some (ordered s.table.rows)) b t) _ h1 in
    let same : (t', more ++ []) ≡ (s', jobs) = done_injective q in
    (
      subst (IsKept s) (ap (λ x. x.0) same)
          (review-IsKept u elapsed (some (ordered s.table.rows)) b s t t' kept reviewed),
      sym (ap (λ x. x.1) same) ∙ ap (λ l. l ++ []) quiet,
    )

-- A user who may not edit the source of a submission that is not rejected.
pub update_with_history-IsKept :
    (u : User) (a : Attrs) (partial : Bool) (pk elapsed : ℕ) (b : Body) (s s' : StaticSubmission)
    (jobs : List Job)
    → can_edit_static_feed_source u (rights_view s) ≡ false
    → is_rejected (some (ordered s.table.rows)) s.table ≡ false
    → update_with_history u (write_serializer b.content_keys a partial pk) elapsed b s
      ≡ done (s', jobs)
    → IsKept s s' × (jobs ≡ [])
unfolding update_with_history update_loaded resubmit
update_with_history-IsKept u a partial pk elapsed b s s' jobs right alive h =
    let (_, _, h1) = >>=-eq-done (update_guard u b) _ h in
    frozen u a partial pk elapsed b s s' jobs _ _ (ground (arith, right)) (ground (arith, alive)) h1
