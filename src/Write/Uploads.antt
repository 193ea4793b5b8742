-- ===== src/Write/Uploads.antt =====
-- When a replaced file is validated: the signals compare names.
use mathlib.Core.Path.{subst}
use otwarte_dane_transportow.Common.{
  ℕ, ◌≡◌, sym, ap, ◌∙◌, Bool, true, none, some, List, [], ◌∷◌, if◌then◌else◌, non_empty, text_eq,
  not, ◌&&◌, arith, false,
}
use otwarte_dane_transportow.Content.Checks.{DataType}
use otwarte_dane_transportow.Review.Answers.{done, >>=-eq-done, done_injective}
use otwarte_dane_transportow.Review.Submissions.{StoredFile, Entry, Job, validate_gtfs_feed}
use otwarte_dane_transportow.Write.Sent.{EntryData, Upload}
use otwarte_dane_transportow.Write.Cleaning.{clean, hide_authenticated}
use otwarte_dane_transportow.Write.Saving.{
  feed_file_path, with_data, saved_entry, save_existing, file_signal, refresh_if,
}
use otwarte_dane_transportow.Write.Restricted.{clean-done}

-- The upload in the storage, under the path of the submission.
abbrev pub in_storage : ℕ → Upload → StoredFile
in_storage id f = record { name = feed_file_path id f.name; content = f.content }

-- A request that replaces the file of an uploaded entry.
abbrev pub replacing : Upload → EntryData → EntryData
replacing f d = record d { url = none; file = some (some f) }

abbrev pub uploaded_entry : StoredFile → Entry → Entry
uploaded_entry old e = record e { url = []; file = some old }

-- No task where the two names are one, and the validation of the entry where they differ.
abbrev pub validation_of : StoredFile → StoredFile → ℕ → List Job
validation_of old new pk = if text_eq old.name new.name then [] else validate_gtfs_feed pk ∷ []

hide_authenticated-source :
    (e : Entry)
    → ((hide_authenticated e).pk ≡ e.pk)
      × ((hide_authenticated e).url ≡ e.url)
      × ((hide_authenticated e).file ≡ e.file)
unfolding hide_authenticated
hide_authenticated-source e = ground arith

cleaned_upload :
    (id : ℕ) (f : Upload) (d : EntryData) (old : StoredFile) (e c : Entry)
    → clean (with_data id (replacing f d) (uploaded_entry old e)) ≡ done c
    → (c.pk ≡ e.pk) × (c.url ≡ []) × (c.file ≡ some (in_storage id f))
unfolding with_data
cleaned_upload id f d old e c h =
    let x = with_data id (replacing f d) (uploaded_entry old e) in
    subst (λ c. (c.pk ≡ e.pk) × (c.url ≡ []) × (c.file ≡ some (in_storage id f)))
      (sym (clean-done x c h)) (hide_authenticated-source x)

-- What the signals leave of a row with the new file.
queued_upload :
    (row : Entry) (t : DataType) (b : Bool) (new old : StoredFile)
    → row.url ≡ []
    → row.file ≡ some new
    → let r = refresh_if (non_empty row.url && b) t (file_signal true (some old) row) in
      (r.0.file ≡ some new) × (r.1 ≡ validation_of old new row.pk)
unfolding refresh_if file_signal
queued_upload row t b new old url file = rw (url, file) (ground arith)

-- In an update that is not an owner's resubmission (there the view restarts the verification itself), a
-- file that replaces the file of an uploaded entry is stored, and one validation of it is queued if
-- the stored name is another; under the same name the content changes and nothing is queued.
pub save_existing-validates :
    (id : ℕ) (t : DataType) (f : Upload) (d : EntryData) (old : StoredFile) (e : Entry)
    (r : Entry × List Job)
    → save_existing id t false (replacing f d) (uploaded_entry old e) ≡ done r
    → (r.0.file ≡ some (in_storage id f)) × (r.1 ≡ validation_of old (in_storage id f) e.pk)
unfolding save_existing file_signal refresh_if saved_entry
save_existing-validates id t f d old e r h =
    let (c, cleaned, q) =
      >>=-eq-done (clean (with_data id (replacing f d) (uploaded_entry old e))) _ h in
    let (pk, url, file) = cleaned_upload id f d old e c cleaned in
    let row = saved_entry (replacing f d) (uploaded_entry old e) c in
    let (stored, queued) =
      queued_upload row t (not (text_eq row.url []) && true) (in_storage id f) old url file in
    subst
      (λ (r : Entry × List Job).
        (r.0.file ≡ some (in_storage id f)) × (r.1 ≡ validation_of old (in_storage id f) e.pk))
      (done_injective q) (stored, queued ∙ ap (validation_of old (in_storage id f)) pk)
