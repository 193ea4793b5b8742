-- ===== src/Accounts/Users.antt =====
-- accounts/services.py and the user view's writes. Of a user only the fields that decide who is an
-- administrator are kept: names, e-mail and password are left out.
use otwarte_dane_transportow.Common.{
  ℕ, suc, Bool, true, false, ◌&&◌, ◌||◌, not, Option, none, some, List, [], ◌∷◌, ◌==◌,
  if◌then◌else◌, where_,
}
use otwarte_dane_transportow.Roles.{Role, admin, has_group}

pub record Account : Type 0 where
  pub id : ℕ
  pub is_active : Bool
  pub groups : List Role

-- The users, and the names of the groups that exist.
pub record Store : Type 0 where
  pub users : List Account
  pub group_names : List Role

pub data Refusal : Type 0 where
  own_account last_admin : Refusal

-- What a write of the view does: the new store, or a `ValidationError`.
pub data Reply : Type 0 where
  saved : Store → Reply
  refused : Refusal → Reply

-- `groups__name=ROLE_ADMIN, is_active=True`
abbrev pub counts : Account → Bool
counts u = u.is_active && has_group admin u.groups

abbrev pub excluded : Option ℕ → Account → Bool
excluded none u = false
excluded (some pk) u = u.id == pk

unfoldable pub admin_group_user_count : Option ℕ → List Account → ℕ
admin_group_user_count exclude [] = 0
admin_group_user_count exclude (u ∷ us) =
    let rest = admin_group_user_count exclude us in
    if counts u && not (excluded exclude u) then suc rest else rest

unfoldable pub would_remove_last_admin : Account → Option (List Role) → Option Bool → Store → Bool
would_remove_last_admin user new_roles new_is_active s =
    let none_left = admin_group_user_count (some user.id) s.users == 0 in
    if not (has_group admin user.groups) then false else elim new_is_active [
      | some false ↦ none_left
      | some true ↦ elim new_roles [
        | none ↦ false
        | some roles ↦ if has_group admin roles then false else none_left
      ]
      | none ↦ elim new_roles [
        | none ↦ none_left
        | some roles ↦ if has_group admin roles then false else none_left
      ]
    ]

-- The groups of those names that exist; the cached names go with the old instance.
unfoldable pub set_user_roles : List Role → Store → Account → Account
set_user_roles names s u = record u { groups = where_ (λ g. has_group g names) s.group_names }

unfoldable pub delete : ℕ → List Account → List Account
delete pk us = where_ (λ u. not (u.id == pk)) us

unfoldable pub replace : ℕ → Account → List Account → List Account
replace pk v [] = []
replace pk v (u ∷ us) = (if u.id == pk then v else u) ∷ replace pk v us

-- `UserViewSet.perform_destroy`, for the user `acting` who asks for it.
unfoldable pub perform_destroy : ℕ → Account → Store → Reply
unfolding would_remove_last_admin delete
perform_destroy acting instance_ s =
    if instance_.id == acting
    then refused own_account
    else if would_remove_last_admin instance_ none none s
    then refused last_admin
    else saved (record s { users = delete instance_.id s.users })

-- `UserUpdateSerializer.update`: the fields that were sent, then the roles.
unfoldable pub updated : Account → Option (List Role) → Option Bool → Store → Account
unfolding set_user_roles
updated u roles is_active s =
    let active : Bool = elim is_active [ none ↦ u.is_active | some b ↦ b ] in
    let v = record u { is_active = active } in
    elim roles [ none ↦ v | some names ↦ set_user_roles names s v ]

abbrev pub is_given {ℓ} : {A : Type ℓ} → Option A → Bool
is_given none = false
is_given (some _) = true

-- `UserViewSet.perform_update`
unfoldable pub perform_update : Account → Option (List Role) → Option Bool → Store → Reply
unfolding would_remove_last_admin updated replace
perform_update instance_ roles is_active s =
    if (is_given roles || is_given is_active) && would_remove_last_admin instance_ roles is_active s
    then refused last_admin
    else saved
        (record s { users = replace instance_.id (updated instance_ roles is_active s) s.users })
