-- ===== src/Review/Examples.antt =====
-- Bodies that a reviewer may send, and the theorems at them.
use otwarte_dane_transportow.Common.{ℕ, ◌≡◌, refl, true, false, Option, none, some, [], ◌∷◌, Text}
use otwarte_dane_transportow.History.{
  new_table, create, stage_advanced, ordered, current_stage, latest_history_entry, first, stage_of,
}
use otwarte_dane_transportow.History.Trail.{new_table-IsSound}
use otwarte_dane_transportow.Review.Transition.{
  falsy, Patch, Moved, cause_value, apply_stage_transition,
}
use otwarte_dane_transportow.Review.Answers.{
  done, invalid, server_error, not_an_integer, not_between,
}
use otwarte_dane_transportow.Review.StageValue.{
  pos, negsuc, int, bool, float, infinite, text, validate_stage_value,
}
use otwarte_dane_transportow.Review.Stages.{IsMoved, apply_stage_transition_lem}

-- " +0_3 "
abbrev three : Text
three = 32 ∷ 43 ∷ 48 ∷ 95 ∷ 51 ∷ 32 ∷ []

stages_read :
    (validate_stage_value (text three) ≡ done (some 3))
    × (validate_stage_value (text (51 ∷ 95 ∷ [])) ≡ invalid not_an_integer)
    × (validate_stage_value (text (45 ∷ 49 ∷ [])) ≡ invalid not_between)
    × (validate_stage_value (bool true) ≡ done (some 1))
    × (validate_stage_value (float (pos 4)) ≡ done (some 4))
    × (validate_stage_value (int (negsuc 0)) ≡ invalid not_between)
    × (validate_stage_value infinite ≡ server_error)
unfolding validate_stage_value
stages_read = (refl, refl, refl, refl, refl, refl, refl)

three_read : validate_stage_value (text three) ≡ done (some 3)
three_read = stages_read.0

abbrev advance : Patch
advance = record { stage = text three; rejection_cause = falsy }

abbrev advanced : Moved
advanced = record {
  table =
      create
        (record {
          event_type = stage_advanced;
          stage_before = 1;
          stage_after = 3;
          actor = some 2;
          cause = [];
          reasons = none;
        })
        5 new_table;
  published = false;
}

advances : apply_stage_transition 2 (some (ordered [])) 5 advance new_table ≡ done advanced
unfolding apply_stage_transition validate_stage_value current_stage latest_history_entry first
    stage_of ordered
advances = refl

apply_stage_transition_example :
    (cause : Text) × (desired : Option ℕ) × (cause_value falsy ≡ done cause)
    × (validate_stage_value (text three) ≡ done desired)
    × IsMoved new_table cause desired advanced
apply_stage_transition_example =
    apply_stage_transition_lem 2 5 advance new_table new_table-IsSound advances
