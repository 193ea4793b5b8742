-- ===== src/Gtfs/Examples.antt =====
-- A report with two errors of one code and a warning, and the theorems at it.
use otwarte_dane_transportow.Common.{
  ◌<◌, ◌≡◌, refl, true, none, some, [], ◌∷◌, Text, non_empty, arith,
}
use otwarte_dane_transportow.History.{first, cause_of, new_table}
use otwarte_dane_transportow.History.Trail.{stage, new_table-IsSound}
use otwarte_dane_transportow.Review.StageValue.{strip}
use otwarte_dane_transportow.Gtfs.Counts.{
  Report, extract_notice_counts, first_list, is_error, rejection_text, error_word, warning_word,
  weight,
}
use otwarte_dane_transportow.Gtfs.Verdict.{record_rejection, Validated, conclude, pending, invalid}
use otwarte_dane_transportow.Gtfs.Totals.{
  total, has_code, only_warning, count_of, extract_notice_counts_lem,
}
use otwarte_dane_transportow.Gtfs.Outcomes.{record_rejection_lem}

abbrev stop_code : Text
stop_code = 115 ∷ 116 ∷ []

abbrev report : Report
report = record {
  summary = record { error_names = some 7 ∷ []; warning_names = [] };
  candidates =
      none
      ∷ some (
          record { severity = error_word; total_notices = some 3; code = 32 ∷ stop_code }
          ∷ record { severity = warning_word; total_notices = none; code = [] }
          ∷ record { severity = error_word; total_notices = some 0; code = stop_code }
          ∷ [])
      ∷ [];
}

counted :
    extract_notice_counts report
    ≡ record { error_count = 4; warning_count = 1; error_code_counts = (stop_code, 4) ∷ [] }
unfolding extract_notice_counts strip
counted = refl

-- "st: 4"
said : rejection_text (extract_notice_counts report) ≡ 115 ∷ 116 ∷ 58 ∷ 32 ∷ 52 ∷ []
unfolding extract_notice_counts rejection_text strip
said = refl

abbrev unvalidated : Validated
unvalidated = record { validation_status = pending; validation_message = []; table = new_table }

judged : (conclude report 5 unvalidated).validation_status ≡ invalid
unfolding conclude extract_notice_counts
judged = refl

extract_notice_counts_example :
    let ns = first_list report.candidates in
    let t = extract_notice_counts report in
    (t.error_count ≡ total is_error ns)
    × (t.warning_count ≡ total only_warning ns)
    × ((c : Text) → non_empty c ≡ true → count_of c t.error_code_counts ≡ total (has_code c) ns)
unfolding first_list is_error weight
extract_notice_counts_example = extract_notice_counts_lem report (omega arith)

record_rejection_example :
    let t' = record_rejection stop_code 5 new_table in
    (stage new_table ≡ 4 → t' ≡ new_table)
    × (stage new_table < 4 → (stage t' ≡ 1) × (cause_of (first t'.rows) ≡ some stop_code))
    × (record_rejection stop_code 6 t' ≡ t')
record_rejection_example = record_rejection_lem new_table 5 6 stop_code new_table-IsSound refl
