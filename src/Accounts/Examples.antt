-- ===== src/Accounts/Examples.antt =====
-- Two administrators, one of whom goes; and the theorems there.
use otwarte_dane_transportow.Common.{◌<◌, ◌≡◌, refl, true, false, none, some, [], ◌∷◌, arith}
use otwarte_dane_transportow.Roles.{admin, editor, has_group}
use otwarte_dane_transportow.Accounts.Users.{
  Account, Store, saved, refused, own_account, last_admin, perform_destroy, perform_update,
  admin_group_user_count,
}
use otwarte_dane_transportow.Accounts.LastAdmin.{
  admins, perform_destroy-keeps_admin, perform_update-keeps_admin,
}

abbrev ada : Account
ada = record { id = 1; is_active = true; groups = admin ∷ [] }

abbrev grace : Account
grace = record { id = 2; is_active = true; groups = admin ∷ editor ∷ [] }

abbrev store : Store
store = record { users = ada ∷ grace ∷ []; group_names = admin ∷ editor ∷ [] }

abbrev alone : Store
alone = record store { users = ada ∷ [] }

refusals :
    (perform_destroy 1 ada store ≡ refused own_account)
    × (perform_destroy 2 ada alone ≡ refused last_admin)
    × (perform_update ada (some (editor ∷ [])) none alone ≡ refused last_admin)
    × (perform_update ada none (some false) alone ≡ refused last_admin)
unfolding perform_destroy perform_update admin_group_user_count has_group
refusals = (refl, refl, refl, refl)

deleted : perform_destroy 2 ada store ≡ saved (record store { users = grace ∷ [] })
unfolding perform_destroy admin_group_user_count has_group
deleted = refl

abbrev demoted : Store
demoted = record store { users = record ada { groups = editor ∷ [] } ∷ grace ∷ [] }

changed : perform_update ada (some (editor ∷ [])) none store ≡ saved demoted
unfolding perform_update admin_group_user_count has_group
changed = refl

two_admins : 0 < admins store
unfolding admin_group_user_count has_group
two_admins = omega arith

perform_destroy-keeps_admin_example : 0 < admins (record store { users = grace ∷ [] })
perform_destroy-keeps_admin_example =
    perform_destroy-keeps_admin 2 ada store (λ e. refl, (λ e. absurd (omega arith), tt)) two_admins
      deleted

perform_update-keeps_admin_example : 0 < admins demoted
perform_update-keeps_admin_example =
    perform_update-keeps_admin ada (some (editor ∷ [])) none store
      (λ e. refl, (λ e. absurd (omega arith), tt)) (λ e. unfold has_group in refl) two_admins
      changed
