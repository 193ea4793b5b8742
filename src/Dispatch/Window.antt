-- ===== src/Dispatch/Window.antt =====
-- Which entries a tick of the dispatcher queues. Times are microseconds since the epoch, and times of
-- day seconds, all UTC.
use otwarte_dane_transportow.Common.{
  ℕ, zero, suc, ◌-◌, ◌*◌, ◌/◌, ◌%◌, Bool, true, false, ◌&&◌, ◌||◌, Option, none, some, List, [],
  ◌∷◌, ◌++◌, if◌then◌else◌, ltb, leb, contains, non_empty,
}
use otwarte_dane_transportow.Fetch.{FetchControl, active, delayed, status_eq, minutes}
use otwarte_dane_transportow.Review.Submissions.{Entry, StaticSubmission, Job, fetch_static_entry}

abbrev pub static_dispatch_catchup_minutes : ℕ
static_dispatch_catchup_minutes = 10

-- `now.time().replace(second=0, microsecond=0)`
abbrev pub minute_of_day : ℕ → ℕ
minute_of_day now = now / 60000000 % 1440 * 60

-- The minutes from `offset` ago until now.
abbrev pub window_from : ℕ → ℕ → List ℕ
window_from zero now = minute_of_day now ∷ []
window_from (suc offset) now =
    let rest = window_from offset now in minute_of_day (now - minutes (suc offset)) ∷ rest

unfoldable pub window_times : ℕ → List ℕ
window_times now = window_from static_dispatch_catchup_minutes now

-- `download_time__in=window_times`; NULL is in no list.
abbrev pub is_in_window : ℕ → Option ℕ → Bool
is_in_window now none = false
is_in_window now (some time) = contains time (window_times now)

-- `last_fetch_success_at` is NULL or before the window.
abbrev pub has_not_succeeded : ℕ → FetchControl → Bool
has_not_succeeded now c = elim c.last_fetch_success_at [
  | none ↦ true
  | some t ↦ ltb t (now - minutes static_dispatch_catchup_minutes)
]

unfoldable pub scheduled_due : ℕ → Entry → Bool
unfolding window_times
scheduled_due now e =
    status_eq e.fetch.fetch_status active
    && ((is_in_window now e.download_time_1 || is_in_window now e.download_time_2)
        && has_not_succeeded now e.fetch)

unfoldable pub retry_due : ℕ → Entry → Bool
retry_due now e =
    status_eq e.fetch.fetch_status delayed
    && elim e.fetch.next_fetch_after [ none ↦ false | some t ↦ leb t now ]

-- The queryset; `completed` are the ids of the published submissions.
abbrev pub is_dispatched : ℕ → List ℕ → ℕ → Entry → Bool
is_dispatched now completed submission_id e =
    (e.hide_original && contains submission_id completed)
    && (non_empty e.url && (scheduled_due now e || retry_due now e))

-- The `delay` of one row.
abbrev pub queued_of : ℕ → List ℕ → ℕ → Option Entry → List Job
queued_of now completed submission_id none = []
queued_of now completed submission_id (some e) =
    if is_dispatched now completed submission_id e then fetch_static_entry e.pk ∷ [] else []

unfoldable pub queued : ℕ → List ℕ → StaticSubmission → List Job
unfolding scheduled_due retry_due
queued now completed s = queued_of now completed s.id s.entry

-- `refresh_static_feeds_task`
unfoldable pub refresh_static_feeds : ℕ → List ℕ → List StaticSubmission → List Job
unfolding queued
refresh_static_feeds now completed [] = []
refresh_static_feeds now completed (s ∷ rows) =
    queued now completed s ++ refresh_static_feeds now completed rows
