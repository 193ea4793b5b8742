-- ===== src/Workflow/Overlap.antt =====
-- An update that overlaps another step: `_update_with_history` reads the history before its
-- transaction, and writes to the history of then.
use mathlib.Core.Path.{subst}
use otwarte_dane_transportow.Common.{
  ℕ, ◌≡◌, refl, sym, ap, ◌∙◌, Bool, true, false, Option, some, List, arith,
}
use otwarte_dane_transportow.Roles.{User, can_confirm_feeds}
use otwarte_dane_transportow.History.{
  Table, HistoryRow, create, ordered, first, is_rejected, stage_of,
}
use otwarte_dane_transportow.History.Trail.{IsSound, stage}
use otwarte_dane_transportow.Review.Answers.{done, >>=-eq-done, done_injective}
use otwarte_dane_transportow.Review.Submissions.{StaticSubmission, Job}
use otwarte_dane_transportow.Review.Static.{
  Body, upload, request_changes_static_source, resubmit, review, update_guard, update_loaded,
}
use otwarte_dane_transportow.Workflow.Steps.{Serializer, KeepsHistory}

uploaded-broken :
    (actor elapsed : ℕ) (t : Table) → stage t ≡ 4 → IsSound (upload actor elapsed t) → ⊥
unfolding upload create
uploaded-broken actor elapsed t k h = let link = h.trail.1 in omega (arith, link.before, k)

module _ (u : User) (elapsed : ℕ) (b : Body) where
  resent :
      (rows : Option (List HistoryRow)) (resends : Bool) (s s' : StaticSubmission)
      → can_confirm_feeds u ≡ false
      → request_changes_static_source b.content_keys ≡ true
      → resends ≡ true
      → review u elapsed rows b (resubmit u elapsed resends b s).0 ≡ done s'
      → upload u.id elapsed s.table ≡ s'.table
  unfolding resubmit review
  resent rows resends s s' owner sends r e =
      ap (λ (x : StaticSubmission). x.table) (done_injective (rw (owner, r, sends) at e))

-- An owner's resubmission of the source that loaded a rejected submission takes one that a reviewer
-- published meanwhile from stage 4 to stage 2, and its history is no longer sound.
pub update_loaded-unpublishes :
    (u : User) (serializer : Serializer) (elapsed : ℕ) (b : Body) (loaded : Table)
    (s s' : StaticSubmission) (jobs : List Job)
    → KeepsHistory serializer
    → can_confirm_feeds u ≡ false
    → is_rejected (some (ordered loaded.rows)) loaded ≡ true
    → request_changes_static_source b.content_keys ≡ true
    → stage s.table ≡ 4
    → update_loaded u serializer elapsed b loaded s ≡ done (s', jobs)
    → (stage s'.table ≡ 2) × (IsSound s'.table → ⊥)
unfolding update_loaded
update_loaded-unpublishes u serializer elapsed b loaded s s' jobs keeps owner was sends k e =
    let (_, _, e₁) = >>=-eq-done (update_guard u b) _ e in
    let (saved, e₂, e₃) = >>=-eq-done (serializer _ _ s) _ e₁ in
    let (s'', e₄, e₅) = >>=-eq-done (review u elapsed _ b _) _ e₃ in
    let same : upload u.id elapsed s.table ≡ s'.table =
      ap (upload u.id elapsed) (sym (keeps _ _ s saved e₂))
      ∙ resent u elapsed b _ _ saved.0 s'' owner sends (ground (arith, was, owner)) e₄
      ∙ ap (λ (r : StaticSubmission × List Job). r.0.table) (done_injective e₅) in
    subst (λ t. (stage t ≡ 2) × (IsSound t → ⊥)) same
      ((unfold upload create first stage_of in refl), uploaded-broken u.id elapsed s.table k)
