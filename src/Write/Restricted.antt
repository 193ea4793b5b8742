-- ===== src/Write/Restricted.antt =====
-- A restricted edit, of a submission after stage 1.
use mathlib.Core.Path.{subst}
use otwarte_dane_transportow.Common.{
  ℕ, ◌≡◌, refl, sym, ap, ◌∙◌, Bool, true, false, not, ◌&&◌, Option, none, some, List, [],
  if◌then◌else◌, if-cases, Text, text_eq, text_eq_sound, text_eq_refl, non_empty, inl, inr, arith,
}
use otwarte_dane_transportow.Content.Checks.{DataType}
use otwarte_dane_transportow.Review.Answers.{done, ◌>>=◌, >>=-eq-done, done_injective}
use otwarte_dane_transportow.Review.Submissions.{Entry, StaticSubmission, Job}
use otwarte_dane_transportow.Review.Static.{ContentKey}
use otwarte_dane_transportow.Write.Sent.{
  EntryData, Attrs, is_sent, readable, without_source, source_free, has_data,
  prune_noop_static_entry_source_updates,
}
use otwarte_dane_transportow.Write.Cleaning.{clean, clean_upload, hide_authenticated}
use otwarte_dane_transportow.Write.Checking.{
  changes_name, validate, type_or, validate_restricted, validate_entry, validate_nested,
  is_bad_upload,
}
use otwarte_dane_transportow.Write.Saving.{
  loaded, with_data, saved_entry, save_existing, file_signal, refresh_if, update_entry,
  write_serializer, with_attrs, sent_or,
}
use otwarte_dane_transportow.Write.Results.{answer, answer_of, write_serializer-done}

-- The two entries have one source, one cached copy and one fetch state.
pub record IsSameSource (e e' : Entry) : Type 0 where
  pub same_url : e'.url ≡ e.url
  pub same_file : e'.file ≡ e.file
  pub same_original : e'.is_original ≡ e.is_original
  pub same_hiding : e'.hide_original ≡ e.hide_original
  pub same_auth_type : e'.auth_type ≡ e.auth_type
  pub same_auth_value : e'.auth_value ≡ e.auth_value
  pub same_cache : e'.cached_file ≡ e.cached_file
  pub same_fetch : e'.fetch ≡ e.fetch

-- What `clean` returns differs from what it was given in `hide_original` at most.
pub clean-done : (e c : Entry) → clean e ≡ done c → c ≡ hide_authenticated e
unfolding clean clean_upload
clean-done e c h = ground arith

pub not_changed : (u : Text) (b : Bool) → (non_empty u && (not (text_eq u u) && b)) ≡ false
not_changed u b = ground (arith, text_eq_refl u)

-- The row after a restricted edit has the source of the row before.
pub hidden-IsSameSource :
    (b : Bool) (id : ℕ) (d : EntryData) (e : Entry)
    → IsSameSource e (
        saved_entry (without_source d) e (
          if b
          then record (with_data id (without_source d) e) { hide_original = true }
          else with_data id (without_source d) e))
unfolding saved_entry with_data without_source
hidden-IsSameSource true id d e = record {
  same_url = refl;
  same_file = refl;
  same_original = refl;
  same_hiding = refl;
  same_auth_type = refl;
  same_auth_value = refl;
  same_cache = refl;
  same_fetch = refl;
}
hidden-IsSameSource false id d e = record {
  same_url = refl;
  same_file = refl;
  same_original = refl;
  same_hiding = refl;
  same_auth_type = refl;
  same_auth_value = refl;
  same_cache = refl;
  same_fetch = refl;
}

abbrev restricted_row : ℕ → EntryData → Entry → Entry
unfolding hide_authenticated
restricted_row id d e =
    saved_entry (without_source d) e (hide_authenticated (with_data id (without_source d) e))

restricted_row-IsSameSource :
    (id : ℕ) (d : EntryData) (e : Entry) → IsSameSource e (restricted_row id d e)
unfolding hide_authenticated
restricted_row-IsSameSource id d e =
    hidden-IsSameSource (non_empty ((with_data id (without_source d) e).auth_type)) id d e

-- A URL that does not change queues nothing.
no_refresh :
    (t : DataType) (b : Bool) (u u' : Text) (r : Entry × List Job)
    → u' ≡ u
    → refresh_if (non_empty u' && (not (text_eq u' u) && b)) t r ≡ r
unfolding refresh_if
no_refresh t b u u' r same = rw (same, not_changed u b) refl

restricted-save :
    (id : ℕ) (t : DataType) (deferred : Bool) (d : EntryData) (e e' : Entry) (jobs : List Job)
    → save_existing id t deferred (without_source d) e ≡ done (e', jobs)
    → IsSameSource e e' × (jobs ≡ [])
unfolding save_existing without_source file_signal
restricted-save id t deferred d e e' jobs h =
    let (c, hc, hf) = >>=-eq-done (clean (with_data id (without_source d) e)) _ h in
    let e1 : c ≡ hide_authenticated (with_data id (without_source d) e) =
      clean-done (with_data id (without_source d) e) c hc in
    let same : IsSameSource e (saved_entry (without_source d) e c) =
      subst (λ x. IsSameSource e (saved_entry (without_source d) e x)) (sym e1)
        (restricted_row-IsSameSource id d e) in
    let q : (saved_entry (without_source d) e c, []) ≡ (e', jobs) =
      sym
        (no_refresh t (not deferred) e.url _ (saved_entry (without_source d) e c, []) same.same_url)
      ∙ done_injective hf in
    (subst (IsSameSource e) (ap (λ r. r.0) q) same, sym (ap (λ r. r.1) q))

-- The entry before and after, where there is one.
pub data IsSourceKept : Option Entry → Option Entry → Type 0 where
  no_entry : IsSourceKept none none
  same_entry : {e e' : Entry} → IsSameSource e e' → IsSourceKept (some e) (some e')

loaded-IsSameSource : {e e' : Entry} → IsSameSource (loaded e) e' → IsSameSource e e'
loaded-IsSameSource k = record {
  same_url = k.same_url;
  same_file = k.same_file;
  same_original = k.same_original;
  same_hiding = k.same_hiding;
  same_auth_type = k.same_auth_type;
  same_auth_value = k.same_auth_value;
  same_cache = k.same_cache;
  same_fetch = k.same_fetch;
}

same-loaded : (e : Entry) → IsSourceKept (some e) (some (loaded e))
same-loaded e = same_entry (record {
  same_url = refl;
  same_file = refl;
  same_original = refl;
  same_hiding = refl;
  same_auth_type = refl;
  same_auth_value = refl;
  same_cache = refl;
  same_fetch = refl;
})

-- There is no source among the data, so there is nothing to prune.
prune-without_source :
    (partial : Bool) (d : EntryData)
    → prune_noop_static_entry_source_updates partial (without_source d) ≡ without_source d
unfolding prune_noop_static_entry_source_updates without_source
prune-without_source true d = refl
prune-without_source false d = refl

kept_at :
    {before o after : Option Entry} {jobs : List Job}
    → IsSourceKept before o
    → answer o [] ≡ answer after jobs
    → IsSourceKept before after × (jobs ≡ [])
kept_at {before = before} k h =
    let q = done_injective h in
    (subst (IsSourceKept before) (ap (λ r. r.0) q) k, sym (ap (λ r. r.1) q))

-- Without a source nothing can be created.
no_source-validate_entry :
    (t : DataType) (d : EntryData)
    → validate_entry t false (without_source d) ≡ done tt
    → has_data (without_source d) ≡ false
unfolding validate_entry without_source is_bad_upload
no_source-validate_entry t d h = ground arith

restricted-saved :
    (id : ℕ) (t : DataType) (deferred : Bool) (d : EntryData) (e : Entry) {after : Option Entry}
    {jobs : List Job}
    → (save_existing id t deferred (without_source d) (loaded e) >>= answer_of) ≡ answer after jobs
    → IsSourceKept (some e) after × (jobs ≡ [])
restricted-saved id t deferred d e h =
    let ((e', more), saved, q) =
      >>=-eq-done (save_existing id t deferred (without_source d) (loaded e)) _ h in
    let (same, quiet) = restricted-save id t deferred d (loaded e) e' more saved in
    kept_at (same_entry (loaded-IsSameSource same)) (ap (answer (some e')) (sym quiet) ∙ q)

restricted-update_entry :
    (id : ℕ) (t : DataType) (partial deferred : Bool) (pk : ℕ) (d : Option EntryData)
    (before after : Option Entry) (jobs : List Job)
    → validate_nested t (is_sent before) (source_free d) ≡ done tt
    → update_entry id t partial deferred pk (source_free d) before ≡ done (after, jobs)
    → IsSourceKept before after × (jobs ≡ [])
unfolding update_entry
restricted-update_entry id t partial deferred pk none none after jobs v h = kept_at no_entry h
restricted-update_entry id t partial deferred pk none (some e) after jobs v h =
    kept_at (same-loaded e) h
restricted-update_entry id t partial deferred pk (some d) none after jobs v h =
    elim (if-cases (has_data (without_source d)) _ _ h) [
      | inl (b, _) ↦
          (let no : has_data (without_source d) ≡ false = no_source-validate_entry t d v in cc)
      | inr (_, q) ↦ kept_at no_entry q
    ]
restricted-update_entry id t partial deferred pk (some d) (some e) after jobs v h =
    let pruned = prune_noop_static_entry_source_updates partial (without_source d) in
    let save = save_existing id t deferred pruned (loaded e) >>= answer_of in
    let branch = has_data (without_source d) && has_data pruned in
    elim (if-cases branch save (answer (some (loaded e)) []) h) [
      | inl (_, q) ↦ restricted-saved id t deferred d e (
          subst (λ x. (save_existing id t deferred x (loaded e) >>= answer_of) ≡ answer after jobs)
            (prune-without_source partial d) q)
      | inr (_, q) ↦ kept_at (same-loaded e) q
    ]

unchanged_name :
    (new : Option Text) (old : Text) → changes_name new old ≡ false → sent_or new old ≡ old
unchanged_name none old h = refl
unchanged_name (some new) old h = sym (text_eq_sound old new (ground arith))

not_sent {ℓ} : {A : Type ℓ} (o : Option A) (old : A) → is_sent o ≡ false → sent_or o old ≡ old
not_sent none old h = refl
not_sent (some new) old h = cc

unchanged_type :
    (new : Option DataType) (old : DataType) → is_sent new ≡ false → type_or new old ≡ old
unchanged_type none old h = refl
unchanged_type (some new) old h = cc

-- What an edit after stage 1 leaves as it was.
pub record IsKept (s s' : StaticSubmission) : Type 0 where
  pub kept_name : s'.name ≡ s.name
  pub kept_organization : s'.transport_organization ≡ s.transport_organization
  pub kept_data_type : s'.data_type ≡ s.data_type
  pub kept_entry : IsSourceKept s.entry s'.entry

restricted_guard :
    (sent : List ContentKey) (a : Attrs) (s : StaticSubmission)
    → validate_restricted sent a s ≡ done tt
    → (changes_name a.name s.name ≡ false)
      × (is_sent a.transport_organization ≡ false)
      × (is_sent a.data_type ≡ false)
unfolding validate_restricted
restricted_guard sent a s h = ground arith

-- A restricted request that succeeds leaves the name, the organization, the data type, the entry's
-- source, cached copy and fetch state as they were, and queues no task.
pub write_serializer-IsKept :
    (sent : List ContentKey) (a : Attrs) (partial : Bool) (pk : ℕ) (deferred : Bool)
    (s s' : StaticSubmission) (jobs : List Job)
    → write_serializer sent a partial pk true deferred s ≡ done (s', jobs)
    → IsKept s s' × (jobs ≡ [])
unfolding write_serializer readable validate with_attrs
write_serializer-IsKept sent a partial pk deferred s s' jobs h =
    let (valid, (saved, stored, q)) =
      write_serializer-done sent a partial pk true deferred s (s', jobs) h in
    let (_, checked, nested) = >>=-eq-done (validate_restricted sent (readable true a) s) _ valid in
    let (name, organization, data_type) = restricted_guard sent (readable true a) s checked in
    let (kept, quiet) =
      restricted-update_entry s.id (type_or a.data_type s.data_type) partial deferred pk
        a.static_entry s.entry (saved.0) (saved.1) nested stored in
    subst (λ (r : StaticSubmission × List Job). IsKept s (r.0) × (r.1 ≡ [])) q
      (
        record {
          kept_name = unchanged_name a.name s.name name;
          kept_organization = not_sent a.transport_organization _ organization;
          kept_data_type = unchanged_type a.data_type s.data_type data_type;
          kept_entry = kept;
        },
        quiet,
      )
