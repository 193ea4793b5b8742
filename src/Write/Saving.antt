-- ===== src/Write/Saving.antt =====
-- `FeedSubmissionWriteSerializer.create` and `update`, with the signals of an entry's file. An entry
-- is loaded and saved within the request; a column that is not listed keeps what the row holds.
use otwarte_dane_transportow.Common.{
  ℕ, Bool, true, false, not, ◌&&◌, ◌||◌, Option, none, some, List, [], ◌∷◌, ◌++◌, if◌then◌else◌,
  Text, text_eq, non_empty,
}
use otwarte_dane_transportow.Fetch.{new_control}
use otwarte_dane_transportow.History.{new_table}
use otwarte_dane_transportow.Content.Checks.{DataType}
use otwarte_dane_transportow.Review.Answers.{Outcome, done, ◌>>=◌}
use otwarte_dane_transportow.Review.Submissions.{
  StoredFile, Entry, StaticSubmission, Job, validate_gtfs_feed,
}
use otwarte_dane_transportow.Review.Static.{ContentKey, schedule_source_refresh}
use otwarte_dane_transportow.Gtfs.{decimal}
use otwarte_dane_transportow.Write.Sent.{
  EntryData, Attrs, Upload, is_sent, sets_url, has_data, readable,
  prune_noop_static_entry_source_updates,
}
use otwarte_dane_transportow.Write.Cleaning.{clean}
use otwarte_dane_transportow.Write.Checking.{validate, validate_new, type_or}

-- `setattr` of a sent field.
abbrev pub sent_or {ℓ} : {A : Type ℓ} → Option A → A → A
sent_or none old = old
sent_or (some new) old = new

-- "/static/"
abbrev pub static_folder : Text
static_folder = 47 ∷ b's' ∷ b't' ∷ b'a' ∷ b't' ∷ b'i' ∷ b'c' ∷ 47 ∷ []

-- `feed_file_path` of an upload whose name has no folders.
unfoldable pub feed_file_path : ℕ → Text → Text
unfolding decimal
feed_file_path submission_id filename = decimal submission_id ++ static_folder ++ filename

abbrev pub stored_file : ℕ → Option (Option Upload) → Option StoredFile → Option StoredFile
stored_file submission_id none old = old
stored_file submission_id (some none) old = none
stored_file submission_id (some (some f)) old =
    some (record { name = feed_file_path submission_id f.name; content = f.content })

-- The entry with the sent fields; `auth_type` in the data also hides the original.
unfoldable pub with_data : ℕ → EntryData → Entry → Entry
unfolding feed_file_path
with_data submission_id d e = record e {
  url = sent_or d.url e.url;
  file = stored_file submission_id d.file e.file;
  is_original = sent_or d.is_original e.is_original;
  hide_original = sets_url d.auth_type || sent_or d.hide_original e.hide_original;
  auth_type = sent_or d.auth_type e.auth_type;
  auth_value = sent_or d.auth_value e.auth_value;
  license = sent_or d.license e.license;
  download_time_1 = sent_or d.download_time_1 e.download_time_1;
  download_time_2 = sent_or d.download_time_2 e.download_time_2;
}

-- `entry.save(update_fields=…)` after `full_clean`, which may set `hide_original` too: it is saved
-- only when it is listed.
unfoldable pub saved_entry : EntryData → Entry → Entry → Entry
saved_entry d row cleaned = record cleaned {
  hide_original =
      if is_sent d.hide_original || sets_url d.auth_type
      then cleaned.hide_original
      else row.hide_original;
}

abbrev pub name_eq : Option StoredFile → Option StoredFile → Bool
name_eq none none = true
name_eq (some a) (some b) = text_eq a.name b.name
name_eq _ _ = false

abbrev pub has_file : Entry → Bool
has_file e = is_sent e.file || is_sent e.cached_file

abbrev pub queued_if : Bool → Entry → Entry × List Job
queued_if b e =
    if b then (record e { validation_queued = true }, validate_gtfs_feed e.pk ∷ []) else (e, [])

-- `trigger_gtfs_validation` after a save of listed fields, with the name that was captured before.
unfoldable pub file_signal : Bool → Option StoredFile → Entry → Entry × List Job
file_signal file_listed previous e =
    queued_if (file_listed && (not (name_eq previous e.file) && has_file e)) e

-- The same, of a new row.
unfoldable pub created_signal : Entry → Entry × List Job
created_signal e = queued_if (has_file e) e

-- `if entry.url and …: self._schedule_source_refresh(entry)`
unfoldable pub refresh_if : Bool → DataType → Entry × List Job → Entry × List Job
unfolding schedule_source_refresh
refresh_if b data_type (e, jobs) =
    if b
    then (let (e', more) = schedule_source_refresh data_type e in (e', jobs ++ more))
    else (e, jobs)

unfoldable pub save_existing : ℕ → DataType → Bool → EntryData → Entry → Outcome (Entry × List Job)
unfolding with_data clean saved_entry file_signal refresh_if
save_existing submission_id data_type deferred d e =
    clean (with_data submission_id d e) >>= λ cleaned.
    let row = saved_entry d e cleaned in
    let changed = non_empty row.url && (not (text_eq row.url e.url) && not deferred) in
    done (refresh_if changed data_type (file_signal (is_sent d.file) e.file row))

-- A new entry with the primary key that the database gives it.
abbrev pub blank_entry : ℕ → Entry
blank_entry pk = record {
  pk = pk;
  url = [];
  file = none;
  is_original = false;
  hide_original = false;
  auth_type = [];
  auth_value = none;
  license = [];
  download_time_1 = none;
  download_time_2 = none;
  cached_file = none;
  cached_at = none;
  fetch = new_control;
  validation_queued = false;
}

unfoldable pub save_new : ℕ → DataType → Bool → EntryData → ℕ → Outcome (Entry × List Job)
unfolding with_data clean created_signal refresh_if
save_new submission_id data_type deferred d pk =
    clean (with_data submission_id d (blank_entry pk)) >>= λ cleaned.
    done (refresh_if (non_empty cleaned.url && not deferred) data_type (created_signal cleaned))

-- An object that was just loaded has no flag of the signal.
abbrev pub loaded : Entry → Entry
loaded e = record e { validation_queued = false }

-- The part of `update` on the entry; `pk` is the key of an entry that it creates.
unfoldable pub update_entry :
    ℕ
    → DataType
    → Bool
    → Bool
    → ℕ
    → Option EntryData
    → Option Entry
    → Outcome (Option Entry × List Job)
unfolding save_existing save_new has_data prune_noop_static_entry_source_updates
update_entry submission_id data_type partial deferred pk none none = done (none, [])
update_entry submission_id data_type partial deferred pk none (some e) = done (some (loaded e), [])
update_entry submission_id data_type partial deferred pk (some d) none =
    if has_data d
    then (save_new submission_id data_type deferred d pk >>= λ r. done (some (r.0), r.1))
    else done (none, [])
update_entry submission_id data_type partial deferred pk (some d) (some e) =
    let pruned = prune_noop_static_entry_source_updates partial d in
    if has_data d && has_data pruned
    then (save_existing submission_id data_type deferred pruned (loaded e) >>= λ r.
        done (some (r.0), r.1))
    else done (some (loaded e), [])

-- The submission's own columns.
unfoldable pub with_attrs : Attrs → StaticSubmission → StaticSubmission
with_attrs a s = record s {
  name = sent_or a.name s.name;
  transport_organization = sent_or a.transport_organization s.transport_organization;
  data_type = type_or a.data_type s.data_type;
  note = sent_or a.note s.note;
}

-- The serializer as the view calls it: the fields, `is_valid` and `save`.
unfoldable pub write_serializer :
    List ContentKey
    → Attrs
    → Bool
    → ℕ
    → Bool
    → Bool
    → StaticSubmission
    → Outcome (StaticSubmission × List Job)
unfolding readable validate with_attrs update_entry
write_serializer sent a partial pk restricted deferred s =
    let attrs = readable restricted a in
    validate restricted sent attrs s >>= λ valid.
    let s' = with_attrs attrs s in
    update_entry s.id s'.data_type partial deferred pk attrs.static_entry s.entry >>= λ saved.
    done (record s' { entry = saved.0 }, saved.1)

-- `create`, of a submission with the ids that the database gives.
unfoldable pub create_submission :
    ℕ → ℕ → ℕ → DataType → Text → Text → Option EntryData → Outcome (StaticSubmission × List Job)
unfolding validate_new update_entry
create_submission id pk organization data_type name note d = validate_new data_type d >>= λ valid.
    update_entry id data_type false false pk d none >>= λ saved. done (
      record {
        id = id;
        submitted_by_id = none;
        transport_organization = organization;
        data_type = data_type;
        name = name;
        note = note;
        table = new_table;
        entry = saved.0;
      },
      saved.1,
    )
