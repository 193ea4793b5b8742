-- ===== src/Write/Sources.antt =====
-- What holds of every entry that was saved through `FeedSubmissionWriteSerializer`.
use mathlib.Core.Path.{subst}
use otwarte_dane_transportow.Common.{
  ℕ, ◌≡◌, ap, Bool, true, false, not, ◌&&◌, ◌||◌, Option, none, some, List, [], inl, inr, if-cases,
  if◌then◌else◌, non_empty, Text, arith,
}
use otwarte_dane_transportow.Content.Checks.{DataType}
use otwarte_dane_transportow.Review.Answers.{Outcome, done, ◌>>=◌, >>=-eq-done, done_injective}
use otwarte_dane_transportow.Review.Submissions.{Entry, StaticSubmission, Job}
use otwarte_dane_transportow.Fetch.{FetchControl, active, status_eq, resume_fetch}
use otwarte_dane_transportow.Fetch.Saved.{load}
use otwarte_dane_transportow.Review.Static.{ContentKey, schedule_source_refresh, resumed}
use otwarte_dane_transportow.Write.Sent.{
  EntryData, Attrs, is_sent, sets_url, has_data, prune_noop_static_entry_source_updates,
}
use otwarte_dane_transportow.Write.Cleaning.{clean, clean_upload, hide_authenticated, schedule_fits}
use otwarte_dane_transportow.Write.Saving.{
  with_data, saved_entry, file_signal, created_signal, refresh_if, save_existing, save_new, loaded,
  blank_entry, update_entry, write_serializer, queued_if, has_file, name_eq, sent_or,
}
use otwarte_dane_transportow.Write.Results.{answer, answer_of, write_serializer-done}

-- One source of the two; a URL has a first download time, and a file has no download time, is not
-- hidden and has no cached copy; what needs authentication is hidden.
pub record IsEntry (e : Entry) : Type 0 where
  pub one_source : is_sent e.file ≡ not (non_empty e.url)
  pub scheduled : schedule_fits e ≡ true
  pub upload_plain :
      non_empty e.url ≡ false
      → (e.hide_original ≡ false) × (is_sent e.cached_file ≡ false) × (is_sent e.cached_at ≡ false)
  pub auth_hidden : non_empty e.auth_type ≡ true → e.hide_original ≡ true

-- What `clean` accepts.
pub clean-IsEntry : (e c : Entry) → clean e ≡ done c → IsEntry c
unfolding clean clean_upload hide_authenticated schedule_fits
clean-IsEntry e c h = record {
  one_source = ground arith;
  scheduled = ground arith;
  upload_plain = ground arith;
  auth_hidden = ground arith;
}

auth_kept :
    (new : Option Text) (old : Text)
    → sets_url new ≡ false
    → non_empty (sent_or new old) ≡ true
    → non_empty old ≡ true
auth_kept none old h g = g
auth_kept (some s) old h g = cc

-- `clean` leaves hidden what is hidden, and leaves `auth_type` alone.
clean-hide :
    (e c : Entry)
    → clean e ≡ done c
    → (c.auth_type ≡ e.auth_type) × (c.hide_original ≡ false → e.hide_original ≡ false)
unfolding clean clean_upload hide_authenticated
clean-hide e c h = (ground arith, ground arith)

not_listed-hide :
    (id : ℕ) (d : EntryData) (e : Entry)
    → (is_sent d.hide_original || sets_url d.auth_type) ≡ false
    → (with_data id d e).hide_original ≡ false
    → e.hide_original ≡ false
unfolding with_data
not_listed-hide id d e h g = ground arith

-- `hide_original` is saved only when it is listed: the row's own value is right otherwise.
saved_entry-IsEntry :
    (id : ℕ) (d : EntryData) (e c : Entry)
    → IsEntry e
    → clean (with_data id d e) ≡ done c
    → IsEntry (saved_entry d e c)
unfolding saved_entry schedule_fits with_data
saved_entry-IsEntry id d e c was h =
    let now : IsEntry c = clean-IsEntry (with_data id d e) c h in
    let (auth, hide) = clean-hide (with_data id d e) c h in
    let kept = auth_kept d.auth_type e.auth_type in
    let shown = not_listed-hide id d e in
    record {
      one_source = now.one_source;
      scheduled = now.scheduled;
      upload_plain = ground (arith, now.upload_plain);
      auth_hidden = ground (arith, now.auth_hidden, was.auth_hidden, ap non_empty auth);
    }

-- The signals and the queueing of a fetch touch the flag and the fetch state only.
marked-IsEntry :
    (e : Entry) (b : Bool) (f : FetchControl)
    → IsEntry e
    → IsEntry (record e { validation_queued = b; fetch = f })
unfolding schedule_fits
marked-IsEntry e b f h = record {
  one_source = h.one_source;
  scheduled = h.scheduled;
  upload_plain = h.upload_plain;
  auth_hidden = h.auth_hidden;
}

queued-IsEntry : (b : Bool) (e : Entry) → IsEntry e → IsEntry ((queued_if b e).0)
queued-IsEntry true e h = marked-IsEntry e true e.fetch h
queued-IsEntry false e h = h

resumed-IsEntry : (e : Entry) → IsEntry e → IsEntry (resumed e)
unfolding resumed
resumed-IsEntry e h =
    elim (status_eq e.fetch.fetch_status active)
      as (λ x. IsEntry (if x then e else record e { fetch = (resume_fetch (load e.fetch)).row })) [
        | true ↦ h
        | false ↦ marked-IsEntry e e.validation_queued _ h
      ]

refreshed-IsEntry :
    (b : Bool) (t : DataType) (r : Entry × List Job)
    → IsEntry (r.0)
    → IsEntry ((refresh_if b t r).0)
unfolding refresh_if schedule_source_refresh
refreshed-IsEntry true t r h = resumed-IsEntry (r.0) h
refreshed-IsEntry false t r h = h

pub save_existing-IsEntry :
    (id : ℕ) (t : DataType) (deferred : Bool) (d : EntryData) (e : Entry) (r : Entry × List Job)
    → IsEntry e
    → save_existing id t deferred d e ≡ done r
    → IsEntry (r.0)
unfolding save_existing file_signal
save_existing-IsEntry id t deferred d e r was h =
    let (c, cleaned, q) = >>=-eq-done (clean (with_data id d e)) _ h in
    let row = saved_entry d e c in
    subst (λ (x : Entry × List Job). IsEntry (x.0)) (done_injective q)
      (refreshed-IsEntry _ t _ (
        queued-IsEntry (is_sent d.file && (not (name_eq e.file row.file) && has_file row)) row
          (saved_entry-IsEntry id d e c was cleaned)))

save_new-IsEntry :
    (id : ℕ) (t : DataType) (deferred : Bool) (d : EntryData) (pk : ℕ) (r : Entry × List Job)
    → save_new id t deferred d pk ≡ done r
    → IsEntry (r.0)
unfolding save_new created_signal
save_new-IsEntry id t deferred d pk r h =
    let (c, cleaned, q) = >>=-eq-done (clean (with_data id d (blank_entry pk))) _ h in
    subst (λ (x : Entry × List Job). IsEntry (x.0)) (done_injective q)
      (refreshed-IsEntry _ t _
        (queued-IsEntry (has_file c) c (clean-IsEntry (with_data id d (blank_entry pk)) c cleaned)))

-- Of an entry that may be missing.
abbrev pub AllEntry : Option Entry → Type 0
AllEntry none = Unit
AllEntry (some e) = IsEntry e

answer-AllEntry :
    (o : Option Entry) (jobs : List Job) {saved : Option Entry × List Job}
    → AllEntry o
    → answer o jobs ≡ done saved
    → AllEntry (saved.0)
answer-AllEntry o jobs h q =
    subst (λ (x : Option Entry × List Job). AllEntry (x.0)) (done_injective q) h

answer_of-AllEntry :
    (m : Outcome (Entry × List Job)) {saved : Option Entry × List Job}
    → ((r : Entry × List Job) → m ≡ done r → IsEntry (r.0))
    → (m >>= answer_of) ≡ done saved
    → AllEntry (saved.0)
answer_of-AllEntry m keeps h =
    let (r, e, q) = >>=-eq-done m answer_of h in answer-AllEntry (some (r.0)) (r.1) (keeps r e) q

update_entry-AllEntry :
    (id : ℕ) (t : DataType) (partial deferred : Bool) (pk : ℕ) (d : Option EntryData)
    (before : Option Entry) (saved : Option Entry × List Job)
    → AllEntry before
    → update_entry id t partial deferred pk d before ≡ done saved
    → AllEntry (saved.0)
unfolding update_entry
update_entry-AllEntry id t partial deferred pk none none saved was h = answer-AllEntry none [] tt h
update_entry-AllEntry id t partial deferred pk none (some e) saved was h =
    answer-AllEntry (some (loaded e)) [] (marked-IsEntry e false e.fetch was) h
update_entry-AllEntry id t partial deferred pk (some d) none saved was h =
    let new = save_new id t deferred d pk in
    elim (if-cases (has_data d) (new >>= answer_of) (answer none []) h) [
      | inl (_, q) ↦ answer_of-AllEntry new (save_new-IsEntry id t deferred d pk) q
      | inr (_, q) ↦ answer-AllEntry none [] tt q
    ]
update_entry-AllEntry id t partial deferred pk (some d) (some e) saved was h =
    let pruned = prune_noop_static_entry_source_updates partial d in
    let ready = marked-IsEntry e false e.fetch was in
    let save = save_existing id t deferred pruned (loaded e) in
    let branch = has_data d && has_data pruned in
    elim (if-cases branch (save >>= answer_of) (answer (some (loaded e)) []) h) [
      | inl (_, q) ↦
          answer_of-AllEntry save
            (λ r. save_existing-IsEntry id t deferred pruned (loaded e) r ready) q
      | inr (_, q) ↦ answer-AllEntry (some (loaded e)) [] ready q
    ]

-- A request that succeeds keeps the rules of an entry: one source of the two; with a URL, a first
-- download time; with a file, no download time, nothing hidden and no cached copy; and what needs
-- authentication is hidden, even where a save does not list that column.
pub write_serializer-AllEntry :
    (sent : List ContentKey) (a : Attrs) (partial : Bool) (pk : ℕ) (restricted deferred : Bool)
    (s : StaticSubmission) (result : StaticSubmission × List Job)
    → AllEntry s.entry
    → write_serializer sent a partial pk restricted deferred s ≡ done result
    → AllEntry (result.0.entry)
write_serializer-AllEntry sent a partial pk restricted deferred s result was h =
    let (_, (saved, stored, q)) =
      write_serializer-done sent a partial pk restricted deferred s result h in
    subst (λ (r : StaticSubmission × List Job). AllEntry (r.0.entry)) q
      (update_entry-AllEntry _ _ partial deferred pk _ s.entry saved was stored)
