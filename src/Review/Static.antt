-- ===== src/Review/Static.antt =====
-- `FeedSubmissionViewSet` of data_manager/api/views.py: the creation of a static submission and
-- `_update_with_history`. What the serializer checks and saves is an argument of the handler, a
-- function of the two flags that the view puts into its context. An exception inside the atomic
-- block leaves nothing behind, so a failing outcome carries no state.
use otwarte_dane_transportow.Common.{
  ℕ, Bool, true, false, ◌&&◌, ◌||◌, not, Option, none, some, List, [], ◌∷◌, ◌++◌, if◌then◌else◌,
  any, non_empty,
}
use otwarte_dane_transportow.Content.Checks.{DataType, is_gtfs}
use otwarte_dane_transportow.Fetch.{active, status_eq, resume_fetch}
use otwarte_dane_transportow.Fetch.Saved.{load}
use otwarte_dane_transportow.Roles.{
  User, Submission, can_confirm_feeds, is_helper_reviewer, can_edit_static_feed_source,
}
use otwarte_dane_transportow.History.{
  Table, HistoryRow, uploaded, create, ordered, current_stage, is_rejected,
}
use otwarte_dane_transportow.Review.Answers.{Outcome, done, forbidden, ◌>>=◌}
use otwarte_dane_transportow.Review.StageValue.{RawStage, missing, validate_stage_value}
use otwarte_dane_transportow.Review.Submissions.{
  EntryField, is_source_field, Entry, is_proxy_managed, StaticSubmission, Job, fetch_static_entry,
  validate_gtfs_feed,
}
use otwarte_dane_transportow.Review.Transition.{
  RawCause, falsy, text, truthy, Patch, apply_stage_transition,
}

-- A key of the body that is neither `stage` nor `rejection_cause`: the nested object with its
-- fields, a multipart key `static_entry.<field>`, or any other.
pub data ContentKey : Type 0 where
  static_entry : List EntryField → ContentKey
  dotted : EntryField → ContentKey
  other_key : ContentKey

pub record Body : Type 0 where
  pub patch : Patch
  pub content_keys : List ContentKey

abbrev pub sends_source : ContentKey → Bool
sends_source (static_entry fields) = any is_source_field fields
sends_source (dotted field) = is_source_field field
sends_source other_key = false

unfoldable pub request_changes_static_source : List ContentKey → Bool
request_changes_static_source keys = any sends_source keys

unfoldable pub patch_request_includes_submission_content : List ContentKey → Bool
patch_request_includes_submission_content [] = false
patch_request_includes_submission_content (_ ∷ _) = true

-- `request.data.get('stage') is not None or request.data.get('rejection_cause')`
abbrev pub sends_stage : RawStage → Bool
sends_stage missing = false
sends_stage _ = true

abbrev pub sends_cause : RawCause → Bool
sends_cause falsy = false
sends_cause (text s) = non_empty s
sends_cause truthy = true

abbrev pub sends_review : Patch → Bool
sends_review p = sends_stage p.stage || sends_cause p.rejection_cause

unfoldable pub resumed : Entry → Entry
resumed e =
    if status_eq e.fetch.fetch_status active
    then e
    else record e { fetch = (resume_fetch (load e.fetch)).row }

-- `_schedule_source_refresh`: the entry afterwards and the jobs that it queues.
unfoldable pub schedule_source_refresh : DataType → Entry → Entry × List Job
unfolding resumed
schedule_source_refresh data_type e =
    let jobs : List Job =
      if is_proxy_managed e
      then fetch_static_entry e.pk ∷ []
      else if is_gtfs data_type
      then (if e.validation_queued then [] else validate_gtfs_feed e.pk ∷ [])
      else [] in
    (resumed e, jobs)

abbrev pub refreshed : DataType → Option Entry → Option Entry × List Job
refreshed data_type none = (none, [])
refreshed data_type (some e) =
    let (e', jobs) = schedule_source_refresh data_type e in (some e', jobs)

-- The row of an upload by the owner, from stage 1 to stage 2.
unfoldable pub upload : ℕ → ℕ → Table → Table
upload actor elapsed t =
    create
      (record {
        event_type = uploaded;
        stage_before = 1;
        stage_after = 2;
        actor = some actor;
        cause = [];
        reasons = none;
      })
      elapsed t

-- `perform_create`, once the serializer has saved the submission with no history.
unfoldable pub perform_create : User → ℕ → StaticSubmission → StaticSubmission
unfolding upload
perform_create u elapsed s = record s {
  submitted_by_id = some u.id;
  table = upload u.id elapsed s.table;
}

-- What the rights read of the submission, over its prefetched history.
abbrev pub rights_view : StaticSubmission → Submission
rights_view s =
    let rows = some (ordered s.table.rows) in
    record {
      submitted_by_id = s.submitted_by_id;
      is_rejected = is_rejected rows s.table;
      current_stage = current_stage rows s.table;
    }

-- The guards before anything is saved.
unfoldable pub update_guard : User → Body → Outcome (Option ℕ)
unfolding patch_request_includes_submission_content
update_guard u b =
    if not (can_confirm_feeds u) && sends_review b.patch
    then forbidden
    else if is_helper_reviewer u && patch_request_includes_submission_content b.content_keys
    then forbidden
    else validate_stage_value b.patch.stage

-- The resubmission by the owner of a rejected submission.
unfoldable pub resubmit : User → ℕ → Bool → Body → StaticSubmission → StaticSubmission × List Job
unfolding upload request_changes_static_source
resubmit u elapsed is_owner_resubmission b s =
    if is_owner_resubmission && request_changes_static_source b.content_keys
    then (let (e, jobs) = refreshed s.data_type s.entry in
        (record s { table = upload u.id elapsed s.table; entry = e }, jobs))
    else (s, [])

-- The transition by a reviewer, over the history that the object was loaded with.
unfoldable pub review :
    User → ℕ → Option (List HistoryRow) → Body → StaticSubmission → Outcome StaticSubmission
review u elapsed rows b s =
    if can_confirm_feeds u
    then (do
      moved ← apply_stage_transition u.id rows elapsed b.patch s.table
      done (record s { table = moved.table }))
    else done s

-- `_update_with_history`, with the history that the submission was loaded with, which is read before
-- the transaction and without a lock; `serializer restricted deferred` is the saved submission and its
-- jobs.
unfoldable pub update_loaded :
    User
    → (Bool → Bool → StaticSubmission → Outcome (StaticSubmission × List Job))
    → ℕ
    → Body
    → Table
    → StaticSubmission
    → Outcome (StaticSubmission × List Job)
unfolding update_guard resubmit review
update_loaded u serializer elapsed b loaded s = update_guard u b >>= λ _.
    let rows = some (ordered loaded.rows) in
    let restricted =
      not (can_edit_static_feed_source u (rights_view (record s { table = loaded }))) in
    let is_owner_resubmission = is_rejected rows loaded && not (can_confirm_feeds u) in
    serializer restricted is_owner_resubmission s >>= λ saved.
    let (s', jobs) = resubmit u elapsed is_owner_resubmission b saved.0 in
    review u elapsed rows b s' >>= λ s''. done (s'', saved.1 ++ jobs)

-- An update that no other request overlaps: it writes to the history that it loaded.
unfoldable pub update_with_history :
    User
    → (Bool → Bool → StaticSubmission → Outcome (StaticSubmission × List Job))
    → ℕ
    → Body
    → StaticSubmission
    → Outcome (StaticSubmission × List Job)
unfolding update_loaded
update_with_history u serializer elapsed b s = update_loaded u serializer elapsed b s.table s
