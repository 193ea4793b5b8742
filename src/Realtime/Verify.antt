-- ===== src/Realtime/Verify.antt =====
-- The task: its two verdicts, which lock the row and load its history afresh, the link check of
-- every endpoint and the first fetch of the proxied ones.
use otwarte_dane_transportow.Common.{
  ℕ, Bool, true, false, Option, none, some, List, [], ◌∷◌, ◌++◌, leb, contains, if◌then◌else◌, Text,
}
use otwarte_dane_transportow.History.{
  Table, rejected, stage_advanced, create, ordered, current_stage, rejection_reasons, Protocol,
  gbfs, EndpointType, Reason, static_submission_missing, static_submission_not_published,
  no_endpoints, endpoint_http_error, endpoint_cache_failed,
}
use otwarte_dane_transportow.Net.Failures.{Exception, Attempt, returned, raised}
use otwarte_dane_transportow.Content.Checks.{Parsers, validate_realtime_feed_content}
use otwarte_dane_transportow.Scheduler.EntityTypes.{record_entity_types}
use otwarte_dane_transportow.Scheduler.Fetching.{Feed, Downloaded, fetch_realtime_endpoint_rt}
use otwarte_dane_transportow.Realtime.Codes.{reason_of_exception, same_reasons}

pub record Endpoint : Type 0 where
  pub endpoint_type : EndpointType
  pub feed : Feed

pub record RealtimeSubmission : Type 0 where
  pub protocol : Protocol
  pub static_submission : Option ℕ
  pub endpoints : List Endpoint
  pub table : Table

-- What `safe_get` and then `safe_download` answer for an endpoint, the text of an exception, the
-- parsers, and the time of the cache fetch.
pub record World : Type 0 where
  pub link : Endpoint → Attempt Downloaded
  pub download : Endpoint → Attempt Downloaded
  pub str : Exception → Text
  pub parsers : Parsers
  pub now : ℕ
  pub failed_at : ℕ

pub data Verdict : Type 0 where
  verified : Verdict
  failed_published refused : List Reason → Verdict

-- `_reject`
unfoldable pub reject : List Reason → ℕ → Table → Verdict × Table
reject reasons elapsed t =
    let rows = some (ordered t.rows) in
    let stage = current_stage rows t in
    if leb 4 stage then (failed_published reasons, t) else (
      refused reasons,
      if same_reasons (rejection_reasons rows t) reasons
          then t
          else create
              (record {
                event_type = rejected;
                stage_before = stage;
                stage_after = 1;
                actor = none;
                cause = [];
                reasons = some reasons;
              })
              elapsed t,
    )

-- `_advance`
unfoldable pub advance : ℕ → ℕ → Table → Table
advance stage_after elapsed t =
    let stage = current_stage (some (ordered t.rows)) t in
    if leb stage_after stage
    then t
    else create
        (record {
          event_type = stage_advanced;
          stage_before = stage;
          stage_after = stage_after;
          actor = none;
          cause = [];
          reasons = none;
        })
        elapsed t

-- The faults so far end the checks; without any the next ones count.
abbrev pub unless_faults :
    List Reason → List Endpoint → List Reason × List Endpoint → List Reason × List Endpoint
unless_faults [] eps next = next
unless_faults (r ∷ rs) eps next = (r ∷ rs, eps)

module _ (w : World) (q : Protocol) where
  -- One turn of the link check: the faults, and the entity types found.
  unfoldable pub judged :
      EndpointType → Attempt (List EndpointType) → List Reason × List EndpointType
  unfolding reason_of_exception
  judged t (returned types) = ([], types)
  judged t (raised e) = (reason_of_exception q t e ∷ [], [])

  unfoldable pub link_check : EndpointType → Attempt Downloaded → List Reason × List EndpointType
  unfolding judged validate_realtime_feed_content
  link_check t (raised e) = judged t (raised e)
  link_check t (returned d) =
      if leb 400 d.status_code
      then (endpoint_http_error t d.status_code ∷ [], [])
      else judged t (validate_realtime_feed_content w.parsers q d.body)

  abbrev pub with_types : List EndpointType → Endpoint → Endpoint
  with_types found ep = record ep {
    feed = record ep.feed { types = record_entity_types found ep.feed.types };
  }

  -- The loop over the endpoints.
  unfoldable pub check_all : List Endpoint → List Reason × List Endpoint
  unfolding link_check
  check_all [] = ([], [])
  check_all (ep ∷ eps) =
      let (reasons, found) = link_check ep.endpoint_type (w.link ep) in
      let (more, rest) = check_all eps in (reasons ++ more, with_types found ep ∷ rest)

  unfoldable pub fetched : Endpoint → Endpoint
  fetched ep =
      if ep.feed.hide_original
      then record ep {
        feed =
            (fetch_realtime_endpoint_rt w.str w.parsers q (w.download ep) w.now w.failed_at
              ep.feed).1;
      }
      else ep

  unfoldable pub uncached : Endpoint → List Reason
  uncached ep =
      if ep.feed.hide_original
      then elim ep.feed.cached_file [
        | none ↦ endpoint_cache_failed ep.endpoint_type ∷ []
        | some file ↦ []
      ]
      else []

  -- The first cache fetch of the proxied endpoints.
  unfoldable pub fetch_all : List Endpoint → List Reason × List Endpoint
  unfolding fetched uncached
  fetch_all [] = ([], [])
  fetch_all (ep ∷ eps) =
      let (more, rest) = fetch_all eps in (uncached (fetched ep) ++ more, fetched ep ∷ rest)

  unfoldable pub checked_and_fetched : List Endpoint → List Reason × List Endpoint
  unfolding check_all fetch_all
  checked_and_fetched eps =
      unless_faults (check_all eps).0 (check_all eps).1 (fetch_all (check_all eps).1)

abbrev pub needs_static : Protocol → Bool
needs_static gbfs = false
needs_static _ = true

-- The checks of the static submission, by the ids of the published ones.
unfoldable pub static_faults : Protocol → Option ℕ → List ℕ → List Reason
static_faults q static published =
    if needs_static q
    then elim static [
      | none ↦ static_submission_missing ∷ []
      | some id ↦ if contains id published then [] else static_submission_not_published ∷ []
    ]
    else []

abbrev pub missing : List Endpoint → List Reason
missing [] = no_endpoints ∷ []
missing (ep ∷ eps) = []

-- What is wrong with the submission, and its endpoints after the task; the checks stop at the first
-- stage that finds a fault.
unfoldable pub examined : World → List ℕ → RealtimeSubmission → List Reason × List Endpoint
unfolding static_faults checked_and_fetched
examined w published s =
    unless_faults (static_faults s.protocol s.static_submission published) s.endpoints (
      unless_faults (missing s.endpoints) s.endpoints
        (checked_and_fetched w s.protocol s.endpoints))

unfoldable pub concluded : List Reason → ℕ → Table → Verdict × Table
unfolding reject advance
concluded [] elapsed t = (verified, advance 3 elapsed t)
concluded (r ∷ rs) elapsed t = reject (r ∷ rs) elapsed t

-- `started` and `elapsed` are the times that pass before the two history rows.
unfoldable pub validate_realtime_submission :
    World → List ℕ → ℕ → ℕ → RealtimeSubmission → Verdict × RealtimeSubmission
unfolding advance examined concluded
validate_realtime_submission w published started elapsed s =
    let (reasons, endpoints) = examined w published s in
    let (verdict, table) = concluded reasons elapsed (advance 2 started s.table) in
    (verdict, record s { endpoints = endpoints; table = table })
