-- ===== src/Roles/Users.antt =====
-- auth_roles.py, lines 4-151: role names and the predicates over them.
use otwarte_dane_transportow.Common.{
  ℕ, Bool, true, false, ◌&&◌, ◌||◌, not, Option, none, some, List, [], ◌∷◌, ltb, leb, ◌==◌,
  if◌then◌else◌,
}

-- A group's name: one of the roles, or any other.
pub data Role : Type 0 where
  admin blogger editor data_provider helper : Role
  other : ℕ → Role

abbrev pub role_eq : Role → Role → Bool
role_eq admin admin = true
role_eq blogger blogger = true
role_eq editor editor = true
role_eq data_provider data_provider = true
role_eq helper helper = true
role_eq (other a) (other b) = a == b
role_eq _ _ = false

-- `cached_role_names` is the attribute that `role_names` sets on the instance.
pub record User : Type 0 where
  pub id : ℕ
  pub is_authenticated : Bool
  pub is_superuser : Bool
  pub is_active : Bool
  pub groups : List Role
  pub cached_role_names : Option (List Role)

-- What the rights read of a submission: its owner, and the stage and rejection of its history.
pub record Submission : Type 0 where
  pub submitted_by_id : Option ℕ
  pub is_rejected : Bool
  pub current_stage : ℕ

-- `role in names`
unfoldable pub has_group : Role → List Role → Bool
has_group r [] = false
has_group r (x ∷ xs) = role_eq x r || has_group r xs

-- The names that `role_names` returns.
unfoldable pub role_names : User → List Role
role_names u =
    if u.is_authenticated
    then elim u.cached_role_names [ none ↦ u.groups | some names ↦ names ]
    else []

-- The user after a call of `role_names`, which keeps the names on the instance.
unfoldable pub remember_roles : User → User
unfolding role_names
remember_roles u =
    if u.is_authenticated then record u { cached_role_names = some (role_names u) } else u

unfoldable pub is_admin : User → Bool
unfolding role_names has_group
is_admin u =
    if not u.is_authenticated then false else u.is_superuser || has_group admin (role_names u)

unfoldable pub has_role : User → Role → Bool
unfolding is_admin role_names has_group
has_role u r = if is_admin u then true else has_group r (role_names u)

unfoldable pub can_publish_blog : User → Bool
unfolding has_role
can_publish_blog u = has_role u blogger

unfoldable pub can_edit_any_blog : User → Bool
unfolding has_role
can_edit_any_blog u = has_role u editor

unfoldable pub can_add_feeds : User → Bool
unfolding has_role
can_add_feeds u = has_role u data_provider

unfoldable pub can_confirm_feeds : User → Bool
unfolding has_role
can_confirm_feeds u = has_role u helper

unfoldable pub has_admin_role : User → Bool
unfolding role_names has_group
has_admin_role u = has_group admin (role_names u)

unfoldable pub is_helper_reviewer : User → Bool
unfolding role_names has_group has_admin_role
is_helper_reviewer u = has_group helper (role_names u) && not (has_admin_role u)

-- `submission.submitted_by_id == user.id`
abbrev pub is_owner : User → Submission → Bool
is_owner u s = elim s.submitted_by_id [ none ↦ false | some owner ↦ owner == u.id ]

unfoldable pub is_submission_owner_provider : User → Submission → Bool
unfolding role_names has_group
is_submission_owner_provider u s = is_owner u s && has_group data_provider (role_names u)

unfoldable pub can_edit_static_feed_source : User → Submission → Bool
unfolding has_admin_role is_submission_owner_provider
can_edit_static_feed_source u s =
    if not u.is_authenticated
    then false
    else if s.is_rejected
    then has_admin_role u || is_submission_owner_provider u s
    else if ltb s.current_stage 2
    then has_admin_role u || is_owner u s
    else if leb s.current_stage 4
    then has_admin_role u
    else has_admin_role u

unfoldable pub can_edit_realtime_submission_content : User → Submission → Bool
unfolding has_admin_role is_submission_owner_provider
can_edit_realtime_submission_content u s =
    if not u.is_authenticated
    then false
    else if s.is_rejected
    then has_admin_role u || is_submission_owner_provider u s
    else if ltb s.current_stage 2
    then has_admin_role u || is_owner u s
    else if leb s.current_stage 4
    then has_admin_role u
    else has_admin_role u

unfoldable pub can_manage_cases : User → Bool
unfolding has_role
can_manage_cases u = has_role u helper
