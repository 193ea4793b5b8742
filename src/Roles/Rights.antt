-- ===== src/Roles/Rights.antt =====
-- Who may do what: the rights against an independent description of them.
use otwarte_dane_transportow.Common.{◌<◌, ◌≡◌, refl, sym, ◌∙◌, ◌⊎◌, ◌↔◌, true, false, arith}
use otwarte_dane_transportow.Roles.Users.{
  Role, admin, data_provider, User, Submission, has_group, role_names, has_role, is_owner,
  can_edit_static_feed_source, can_edit_realtime_submission_content,
}

-- The rule of the documentation: an Admin by group at any stage; the owner before verification,
-- and after a rejection if the owner is a DataProvider.
abbrev pub MayEdit : User → Submission → Type 0
MayEdit u s =
    (u.is_authenticated ≡ true)
    × ((has_group admin (role_names u) ≡ true)
        ⊎ ((is_owner u s ≡ true)
            × ((s.is_rejected ≡ true) × (has_group data_provider (role_names u) ≡ true)
                ⊎ (s.is_rejected ≡ false) × (s.current_stage < 2))))

can_edit_static-MayEdit :
    (u : User) (s : Submission) → can_edit_static_feed_source u s ≡ true → MayEdit u s
unfolding can_edit_static_feed_source
can_edit_static-MayEdit u s h = ground arith

MayEdit-can_edit_static :
    (u : User) (s : Submission) → MayEdit u s → can_edit_static_feed_source u s ≡ true
unfolding can_edit_static_feed_source
MayEdit-can_edit_static u s h = ground arith

same_rule :
    (u : User) (s : Submission)
    → can_edit_realtime_submission_content u s ≡ can_edit_static_feed_source u s
unfolding can_edit_static_feed_source can_edit_realtime_submission_content
same_rule u s = refl

-- The source of a static feed may be changed exactly by an authenticated user who holds the Admin
-- group, or owns the submission while it is at a stage below 2 and not rejected, or owns it as a
-- DataProvider while it is rejected; and the same users may change a realtime submission's content.
pub can_edit_iff :
    (u : User) (s : Submission)
    → ((can_edit_static_feed_source u s ≡ true) ↔ MayEdit u s)
      × ((can_edit_realtime_submission_content u s ≡ true) ↔ MayEdit u s)
can_edit_iff u s = (
  (can_edit_static-MayEdit u s, MayEdit-can_edit_static u s),
  (
    λ h. can_edit_static-MayEdit u s (sym (same_rule u s) ∙ h),
    λ h. same_rule u s ∙ MayEdit-can_edit_static u s h,
  ),
)

-- Who holds the Admin group, or is a superuser, has every role; and one who has none of the three
-- (Admin, the superuser flag, the role's own group) has not the role.
pub has_role_iff :
    (u : User) (r : Role)
    → (has_role u r ≡ true) ↔ (
        (u.is_authenticated ≡ true)
        × ((u.is_superuser ≡ true)
            ⊎ ((has_group admin (role_names u) ≡ true) ⊎ (has_group r (role_names u) ≡ true))))
unfolding has_role
has_role_iff u r = (has, has_back)
  where
    has :
        has_role u r ≡ true
        → (u.is_authenticated ≡ true)
          × ((u.is_superuser ≡ true)
              ⊎ ((has_group admin (role_names u) ≡ true) ⊎ (has_group r (role_names u) ≡ true)))
    has h = ground arith

    has_back :
        (u.is_authenticated ≡ true)
          × ((u.is_superuser ≡ true)
              ⊎ ((has_group admin (role_names u) ≡ true) ⊎ (has_group r (role_names u) ≡ true)))
        → has_role u r ≡ true
    has_back h = ground arith
