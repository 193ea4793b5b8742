-- ===== src/History/Examples.antt =====
-- A history of three rows, two of them of one moment, and the theorems at it.
use otwarte_dane_transportow.Common.{◌≡◌, refl, true, none, some, [], ◌∷◌}
use otwarte_dane_transportow.History.Rows.{
  uploaded, completed, rejected, NewRow, Table, new_table, create, ordered, latest_history_entry,
  current_stage, is_rejected, rejection_cause, rejection_reasons, published_at, stage_of,
  is_rejection, cause_of, reasons_of, newer, first,
}
use otwarte_dane_transportow.History.Reasons.{no_endpoints}
use otwarte_dane_transportow.History.Order.{IsStamped, new_table-IsStamped, create-IsStamped}

abbrev upload_row : NewRow
upload_row = record {
  event_type = uploaded;
  stage_before = 1;
  stage_after = 2;
  actor = some 7;
  cause = [];
  reasons = none;
}

abbrev publish_row : NewRow
publish_row = record upload_row { event_type = completed; stage_before = 2; stage_after = 4 }

abbrev reject_row : NewRow
reject_row = record upload_row {
  event_type = rejected;
  stage_before = 4;
  stage_after = 1;
  cause = 120 ∷ [];
  reasons = some (no_endpoints ∷ []);
}

abbrev uploaded_table : Table
uploaded_table = create upload_row 10 new_table

abbrev published_table : Table
published_table = create publish_row 0 uploaded_table

published_then :
    (current_stage none published_table ≡ 4) × (published_at none published_table ≡ some 10)
unfolding current_stage latest_history_entry stage_of newer first published_at ordered create
published_then = (refl, refl)

rejected_then :
    (current_stage none (create reject_row 3 published_table) ≡ 1)
    × (is_rejected none (create reject_row 3 published_table) ≡ true)
    × (rejection_cause none (create reject_row 3 published_table) ≡ some (120 ∷ []))
    × (rejection_reasons none (create reject_row 3 published_table) ≡ some (no_endpoints ∷ []))
unfolding current_stage is_rejected rejection_cause rejection_reasons latest_history_entry stage_of
    is_rejection cause_of reasons_of newer first ordered create
rejected_then = (refl, refl, refl, refl)

uploaded-IsStamped : IsStamped uploaded_table
uploaded-IsStamped = create-IsStamped upload_row 10 new_table new_table-IsStamped
