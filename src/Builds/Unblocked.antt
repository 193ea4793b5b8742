-- ===== src/Builds/Unblocked.antt =====
-- A job whose worker is gone does not block the jobs after it.
use otwarte_dane_transportow.Common.{
  ℕ, ◌+◌, ◌<◌, ◌≡◌, ◌≢◌, refl, sym, ◌∙◌, Bool, true, false, Option, none, some, List, [], ◌∷◌, map,
  if◌then◌else◌, any, All, contains, where_, arith, Text,
}
use mathlib.Core.Path.{subst}
use otwarte_dane_transportow.Builds.Rows.{
  GraphBuild, OsmDownload, Jobs, Trigger, JobStatus, queued, running, succeeded, failed, update_row,
  build_key, build_interrupted, is_running, is_under_way,
}
use otwarte_dane_transportow.Builds.Queue.{
  ok, create_build, new_build, request_build, finish_failed, failed_row,
}
use otwarte_dane_transportow.Builds.Watch.{
  is_stale_build, fail_each, fail_stale_builds, fail_stale_osm_downloads, interrupted_row, watchdog,
  is_stale_as, watch_messages, active_build,
}
use otwarte_dane_transportow.Builds.Steps.{Run}
use otwarte_dane_transportow.Builds.Exclusion.{is_job, is_download}
use otwarte_dane_transportow.Builds.Timed.{IsTimed, HasHeartbeat, HasStart, Run-IsTimed}

-- The tables before the first job.
abbrev pub no_jobs : Jobs
no_jobs = record { builds = []; next_build = 1; downloads = []; next_download = 1; messages = [] }

-- The time passed by more than the limit, if there is a time.
abbrev pub IsPast : ℕ → ℕ → Option ℕ → Type 0
IsPast limit now none = Unit {0}
IsPast limit now (some t) = t + limit < now

-- A job is over, or gave no sign for its limit: 15 minutes, and 75 for a running download.
abbrev pub IsSilentAs : JobStatus → ℕ → Option ℕ → ℕ → ℕ → Type 0
IsSilentAs queued created sign limit now = created + 900 < now
IsSilentAs running created sign limit now = IsPast limit now sign
IsSilentAs succeeded created sign limit now = Unit {0}
IsSilentAs failed created sign limit now = Unit {0}

abbrev pub IsSilent : ℕ → GraphBuild → Type 0
IsSilent now b = IsSilentAs b.status b.created_at b.heartbeat_at 900 now

abbrev pub IsSilentDownload : ℕ → OsmDownload → Type 0
IsSilentDownload now d = IsSilentAs d.status d.created_at d.started_at 4500 now

silent-stale :
    (limit now created : ℕ) (status : JobStatus) (sign : Option ℕ)
    → IsSilentAs status created sign limit now
    → (is_running status ≡ true → sign ≢ none)
    → is_under_way status ≡ true
    → is_stale_as status created sign limit now ≡ true
silent-stale limit now created queued sign q k h = ground arith
silent-stale limit now created running none q k h = absurd (k refl refl)
silent-stale limit now created running (some t) q k h = ground arith
silent-stale limit now created succeeded sign q k h = cc
silent-stale limit now created failed sign q k h = cc

-- Rows that are jobs have their keys in the list that the loop goes through.
abbrev IsListed : List GraphBuild → GraphBuild → Type 0
IsListed bs b = is_job b ≡ true → contains b.id (map build_key bs) ≡ true

idle_any : (rs : List GraphBuild) → All (IsListed []) rs → any is_job rs ≡ false
idle_any [] h = refl
idle_any (r ∷ rs) (h, hs) = ground (arith, h, idle_any rs hs)

shorten :
    (now : ℕ) (b : GraphBuild) (bs rs : List GraphBuild)
    → All (IsListed (b ∷ bs)) rs
    → All (IsListed bs) (update_row build_key b.id (failed_row build_interrupted [] now) rs)
shorten now b bs [] h = tt
shorten now b bs (r ∷ rs) (h, hs) = (λ g. ground (arith, h), shorten now b bs rs hs)

fail_each-idle :
    (now : ℕ) (bs : List GraphBuild) (s : Jobs)
    → All (IsListed bs) s.builds
    → any is_job (fail_each now bs s).builds ≡ false
unfolding fail_each finish_failed
fail_each-idle now [] s h = idle_any s.builds h
fail_each-idle now (b ∷ bs) s h =
    fail_each-idle now bs (finish_failed b.id build_interrupted [] now s)
      (shorten now b bs s.builds h)

fail_each-downloads :
    (now : ℕ) (bs : List GraphBuild) (s : Jobs) → (fail_each now bs s).downloads ≡ s.downloads
unfolding fail_each finish_failed
fail_each-downloads now [] s = refl
fail_each-downloads now (b ∷ bs) s =
    fail_each-downloads now bs (finish_failed b.id build_interrupted [] now s)

-- What the filter reads for a row after it, it reads for a longer table.
where_-longer :
    (j : ℕ) (b : Bool) (r : GraphBuild) (rs : List GraphBuild)
    → contains j (map build_key rs) ≡ true
    → contains j (map build_key (if b then r ∷ rs else rs)) ≡ true
where_-longer j true r rs h = ground arith
where_-longer j false r rs h = h

where_-first :
    (b : Bool) (r : GraphBuild) (rs : List GraphBuild)
    → b ≡ true
    → contains r.id (map build_key (if b then r ∷ rs else rs)) ≡ true
where_-first true r rs h = ground arith
where_-first false r rs h = cc

where_-IsListed :
    (now : ℕ) (bs rs : List GraphBuild)
    → ((k : ℕ)
        → contains k (map build_key (where_ (is_stale_build now) rs)) ≡ true
        → contains k (map build_key bs) ≡ true)
    → All (IsSilent now) rs
    → All HasHeartbeat rs
    → All (IsListed bs) rs
where_-IsListed now bs [] sub q k = tt
where_-IsListed now bs (r ∷ rs) sub (q, qs) (k, ks) =
    let rest = where_ (is_stale_build now) rs in
    (
      λ h. sub r.id (
          where_-first (is_stale_build now r) r rest
            (silent-stale 900 now r.created_at r.status r.heartbeat_at q k h)),
      where_-IsListed now bs rs (λ j h. sub j (where_-longer j (is_stale_build now r) r rest h)) qs
          ks,
    )

fail_stale_builds-idle :
    (now : ℕ) (s : Jobs)
    → All (IsSilent now) s.builds
    → All HasHeartbeat s.builds
    → any is_job (fail_stale_builds now s).builds ≡ false
unfolding fail_stale_builds
fail_stale_builds-idle now s q k =
    let stale = where_ (is_stale_build now) s.builds in
    fail_each-idle now stale s (where_-IsListed now stale s.builds (λ j h. h) q k)

interrupted-idle :
    (now : ℕ) (ds : List OsmDownload)
    → All (IsSilentDownload now) ds
    → All HasStart ds
    → any is_download (map (interrupted_row now) ds) ≡ false
interrupted-idle now [] q k = refl
interrupted-idle now (d ∷ ds) (q, qs) (k, ks) = ground (
  arith,
  silent-stale 4500 now d.created_at d.status d.started_at q k,
  interrupted-idle now ds qs ks,
)

watch_messages-jobs :
    (indexed : Bool) (o : Option GraphBuild) (s : Jobs)
    → (any is_job (watch_messages indexed o s).builds ≡ any is_job s.builds)
      × (any is_download (watch_messages indexed o s).downloads ≡ any is_download s.downloads)
watch_messages-jobs indexed none s = (refl, refl)
watch_messages-jobs indexed (some b) s = (refl, refl)

watchdog-idle :
    (indexed : Bool) (now : ℕ) (s : Jobs)
    → IsTimed s
    → All (IsSilent now) s.builds
    → All (IsSilentDownload now) s.downloads
    → (any is_job (watchdog indexed now s).builds ≡ false)
      × (any is_download (watchdog indexed now s).downloads ≡ false)
unfolding watchdog fail_stale_osm_downloads fail_stale_builds
watchdog-idle indexed now s v q p =
    let t = fail_stale_osm_downloads now (fail_stale_builds now s) in
    let (builds, downloads) = watch_messages-jobs indexed (active_build t.builds) t in
    (
      builds ∙ fail_stale_builds-idle now s q v.builds,
      downloads
          ∙ subst
              (λ (ds : List OsmDownload). any is_download (map (interrupted_row now) ds) ≡ false)
              (sym (fail_each-downloads now (where_ (is_stale_build now) s.builds) s))
              (interrupted-idle now s.downloads p v.downloads),
    )

-- From the first job on, in every order of steps: once every job under way has been silent for its
-- limit, a round of the watchdog ends them all, and the next build that is requested is queued.
pub watchdog-unblocks :
    {s : Jobs} (trigger : Trigger) (user : Option ℕ) (image : Text) (indexed : Bool) (now : ℕ)
    → Run no_jobs s
    → All (IsSilent now) s.builds
    → All (IsSilentDownload now) s.downloads
    → request_build trigger user image now (watchdog indexed now s)
      ≡ ok (create_build (new_build trigger user image now) (watchdog indexed now s))
unfolding request_build
watchdog-unblocks {s = s} trigger user image indexed now run q p =
    let (builds, downloads) =
      watchdog-idle indexed now s (Run-IsTimed (record { builds = tt; downloads = tt }) run) q p in
    ground arith
