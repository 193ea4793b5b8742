-- ===== src/Accounts/LastAdmin.antt =====
-- No write of the user view removes the last active administrator.
use otwarte_dane_transportow.Common.{
  ℕ, ◌≤◌, ◌<◌, ◌≡◌, refl, Bool, true, false, Option, none, some, List, [], ◌∷◌, ◌==◌, ==_iff,
  where_, All, Bool-cases, inl, inr, ◌⊎◌, arith,
}
use otwarte_dane_transportow.Roles.{Role, admin, has_group}
use otwarte_dane_transportow.Accounts.Users.{
  Account, Store, saved, counts, admin_group_user_count, would_remove_last_admin, delete, replace,
  updated, perform_destroy, perform_update,
}

-- The instance is what the table holds under its key.
abbrev pub IsLoaded : Account → List Account → Type 0
IsLoaded u = All (λ v. v.id ≡ u.id → v ≡ u)

-- A user's membership refers to a group that exists.
abbrev pub HasGroups : Account → Store → Type 0
HasGroups u s = has_group admin u.groups ≡ true → has_group admin s.group_names ≡ true

count-delete :
    (pk : ℕ) (us : List Account)
    → admin_group_user_count none (delete pk us) ≡ admin_group_user_count (some pk) us
unfolding admin_group_user_count delete
count-delete pk [] = refl
count-delete pk (u ∷ us) = ground (arith, count-delete pk us)

count-replace :
    (pk : ℕ) (v : Account) (us : List Account)
    → admin_group_user_count (some pk) us ≤ admin_group_user_count none (replace pk v us)
unfolding admin_group_user_count replace
count-replace pk v [] = omega arith
count-replace pk v (u ∷ us) = ground (arith, count-replace pk v us)

count-exclude_other :
    (i : Account) (us : List Account)
    → IsLoaded i us
    → counts i ≡ false
    → admin_group_user_count (some i.id) us ≡ admin_group_user_count none us
unfolding admin_group_user_count
count-exclude_other i [] h k = refl
count-exclude_other i (u ∷ us) h k = elim (Bool-cases (u.id == i.id)) [
  | inl same ↦ rw (h.0 ((==_iff u.id i.id).0 same), k) (count-exclude_other i us h.1 k)
  | inr differs ↦ rw differs (ground (arith, count-exclude_other i us h.1 k))
]

count-replace_kept :
    (i v : Account) (us : List Account)
    → IsLoaded i us
    → (counts i ≡ true → counts v ≡ true)
    → admin_group_user_count none us ≤ admin_group_user_count none (replace i.id v us)
unfolding admin_group_user_count replace
count-replace_kept i v [] h k = omega arith
count-replace_kept i v (u ∷ us) h k = elim (Bool-cases (u.id == i.id)) [
  | inl same ↦
      rw (same, h.0 ((==_iff u.id i.id).0 same)) (ground (arith, count-replace_kept i v us h.1 k))
  | inr differs ↦ rw differs (ground (arith, count-replace_kept i v us h.1 k))
]

abbrev pub admins : Store → ℕ
admins s = admin_group_user_count none s.users

admin-where_ :
    (names table : List Role)
    → has_group admin names ≡ true
    → has_group admin table ≡ true
    → has_group admin (where_ (λ g. has_group g names) table) ≡ true
unfolding has_group
admin-where_ names [] h k = k
admin-where_ names (admin ∷ xs) h k = rw h refl
admin-where_ names (x ∷ xs) h k = ground (arith, admin-where_ names xs h)

-- What the guard says when it lets a change pass: the user is no active admin, or stays one, or
-- another active admin remains.
guard_passed :
    (i : Account) (roles : Option (List Role)) (is_active : Option Bool) (s : Store)
    → HasGroups i s
    → would_remove_last_admin i roles is_active s ≡ false
    → (counts i ≡ true → counts (updated i roles is_active s) ≡ true)
      ⊎ (0 < admin_group_user_count (some i.id) s.users)
unfolding would_remove_last_admin updated
guard_passed i none none s g h = ground arith
guard_passed i none (some b) s g h = ground arith
guard_passed i (some names) none s g h = ground (arith, admin-where_ names s.group_names)
guard_passed i (some names) (some b) s g h = ground (arith, admin-where_ names s.group_names)

-- When a user that was loaded from the table is deleted and an active administrator existed before,
-- one exists afterwards.
pub perform_destroy-keeps_admin :
    (acting : ℕ) (i : Account) (s : Store) {s' : Store}
    → IsLoaded i s.users
    → 0 < admins s
    → perform_destroy acting i s ≡ saved s'
    → 0 < admins s'
unfolding perform_destroy
perform_destroy-keeps_admin acting i s l h e =
    ground (arith, count-delete i.id s.users, count-exclude_other i s.users l)

replaced :
    (i : Account) (roles : Option (List Role)) (is_active : Option Bool) (s : Store)
    → IsLoaded i s.users
    → HasGroups i s
    → 0 < admins s
    → would_remove_last_admin i roles is_active s ≡ false
    → 0 < admin_group_user_count none (replace i.id (updated i roles is_active s) s.users)
replaced i roles is_active s l g h e = elim (guard_passed i roles is_active s g e) [
  | inl kept ↦ omega (arith, count-replace_kept i (updated i roles is_active s) s.users l kept)
  | inr others ↦ omega (arith, count-replace i.id (updated i roles is_active s) s.users)
]

-- With neither roles nor activity sent, the account stays as it is.
untouched : (i : Account) (s : Store) → counts i ≡ true → counts (updated i none none s) ≡ true
unfolding updated
untouched i s h = h

-- When a user that was loaded from the table, whose groups exist, is given other roles, another
-- activity, or both, and an active administrator existed before, one exists afterwards.
pub perform_update-keeps_admin :
    (i : Account) (roles : Option (List Role)) (is_active : Option Bool) (s : Store) {s' : Store}
    → IsLoaded i s.users
    → HasGroups i s
    → 0 < admins s
    → perform_update i roles is_active s ≡ saved s'
    → 0 < admins s'
unfolding perform_update
perform_update-keeps_admin i none none s l g h e =
    ground (arith, count-replace_kept i (updated i none none s) s.users l (untouched i s))
perform_update-keeps_admin i roles is_active s l g h e =
    ground (arith, replaced i roles is_active s l g h)
