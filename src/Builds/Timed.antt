-- ===== src/Builds/Timed.antt =====
-- A running job has its time, so that the watchdog can tell when it is silent.
use otwarte_dane_transportow.Common.{
  ℕ, ◌≡◌, ◌≢◌, refl, Bool, true, false, not, Option, none, some, List, [], ◌∷◌, map, if◌then◌else◌,
  All, if-cases, inl, inr, arith, ◌==◌, Text,
}
use mathlib.Core.Path.{subst}
use mathlib.Core.Option.{some-injective}
use otwarte_dane_transportow.Builds.Rows.{
  GraphBuild, OsmDownload, Jobs, is_running, is_queued, row_at, update_row, build_key, download_key,
  succeeded, failed, ErrorCode, Trigger,
}
use otwarte_dane_transportow.Builds.Queue.{
  ok, refused, queue_job, create_build, create_download, request_build, request_rollback,
  request_osm_download, begin_build, begin_download, heartbeat, record_results, record_rental,
  mark_stopped, finish_failed, finish_succeeded, finish_download, begin_row, begin_download_row,
  begun_row, begun_download_row, new_build, rollback_build, is_not_activatable,
  build_not_activatable, inactive_row, succeeded_row, finished_download_row,
}
use otwarte_dane_transportow.Builds.Watch.{fail_stale_osm_downloads, interrupted_row}
use otwarte_dane_transportow.Builds.Exclusion.{queue_job-ok}
use otwarte_dane_transportow.Builds.Steps.{
  Step, requested, rolled_back, osm_requested, began, began_download, beat, recorded, rented,
  stopped, activated, ended, interrupted, Run, here, next,
}

abbrev pub HasHeartbeat : GraphBuild → Type 0
HasHeartbeat b = is_running b.status ≡ true → b.heartbeat_at ≢ none

abbrev pub HasStart : OsmDownload → Type 0
HasStart d = is_running d.status ≡ true → d.started_at ≢ none

pub record IsTimed (s : Jobs) : Type 0 where
  pub builds : All HasHeartbeat s.builds
  pub downloads : All HasStart s.downloads

module _ {A : Type 0} (P : A → Type 0) (f : A → A) (keep : (r : A) → P r → P (f r)) where
  All-update_row : (key : A → ℕ) (id : ℕ) (rs : List A) → All P rs → All P (update_row key id f rs)
  All-update_row key id [] h = tt
  All-update_row key id (r ∷ rs) (h, hs) =
      (if-keeps (key r == id) (keep r h) h, All-update_row key id rs hs)
    where
      if-keeps : (b : Bool) {x y : A} → P x → P y → P (if b then x else y)
      if-keeps true p q = p
      if-keeps false p q = q

  All-map : (rs : List A) → All P rs → All P (map f rs)
  All-map [] h = tt
  All-map (r ∷ rs) (h, hs) = (keep r h, All-map rs hs)

update_build-IsTimed :
    (id : ℕ) (f : GraphBuild → GraphBuild) (s : Jobs)
    → ((r : GraphBuild) → HasHeartbeat r → HasHeartbeat (f r))
    → IsTimed s
    → IsTimed (record s { builds = update_row build_key id f s.builds })
update_build-IsTimed id f s keep v = record {
  builds = All-update_row HasHeartbeat f keep build_key id s.builds v.builds;
  downloads = v.downloads;
}

update_download-IsTimed :
    (id : ℕ) (f : OsmDownload → OsmDownload) (s : Jobs)
    → ((r : OsmDownload) → HasStart r → HasStart (f r))
    → IsTimed s
    → IsTimed (record s { downloads = update_row download_key id f s.downloads })
update_download-IsTimed id f s keep v = record {
  builds = v.builds;
  downloads = All-update_row HasStart f keep download_key id s.downloads v.downloads;
}

begin_row-IsTimed :
    (now : ℕ) (o : Option GraphBuild) (s t : Jobs)
    → begin_row now o s ≡ some t
    → IsTimed s
    → IsTimed t
begin_row-IsTimed now none s t h v = cc
begin_row-IsTimed now (some b) s t h v =
    elim (if-cases (not (is_queued b.status)) none
      (some (record s { builds = update_row build_key b.id (begun_row now) s.builds })) h) [
        | inl (_, e) ↦ cc
        | inr (_, e) ↦
            subst IsTimed (some-injective _ _ e)
              (update_build-IsTimed b.id (begun_row now) s (λ r k h. ground arith) v)
      ]

begin_download_row-IsTimed :
    (now : ℕ) (o : Option OsmDownload) (s t : Jobs)
    → begin_download_row now o s ≡ some t
    → IsTimed s
    → IsTimed t
begin_download_row-IsTimed now none s t h v = cc
begin_download_row-IsTimed now (some d) s t h v =
    elim (if-cases (not (is_queued d.status)) none
      (some (record s {
        downloads = update_row download_key d.id (begun_download_row now) s.downloads;
      }))
      h) [
        | inl (_, e) ↦ cc
        | inr (_, e) ↦
            subst IsTimed (some-injective _ _ e)
              (update_download-IsTimed d.id (begun_download_row now) s (λ r k h. ground arith) v)
      ]

create_build-IsTimed :
    (fields : GraphBuild) (s : Jobs)
    → is_running fields.status ≡ false
    → IsTimed s
    → IsTimed (create_build fields s)
unfolding create_build
create_build-IsTimed fields s idle v = record {
  builds = (λ h. cc, v.builds);
  downloads = v.downloads;
}

request_rollback-IsTimed :
    (target : GraphBuild) (user : Option ℕ) (image : Text) (on_disk : Bool) (now : ℕ) (s t : Jobs)
    → request_rollback target user image on_disk now s ≡ ok t
    → IsTimed s
    → IsTimed t
unfolding request_rollback
request_rollback-IsTimed target user image on_disk now s t h v =
    elim (if-cases (is_not_activatable target image on_disk) (refused build_not_activatable)
      (queue_job (create_build (rollback_build target user now) s) s) h) [
        | inl (_, e) ↦ cc
        | inr (_, q) ↦
            subst IsTimed (queue_job-ok (create_build (rollback_build target user now) s) s q).1
              (create_build-IsTimed (rollback_build target user now) s refl v)
      ]

request_osm_download-IsTimed :
    (url : Text) (user : Option ℕ) (now : ℕ) (s t : Jobs)
    → request_osm_download url user now s ≡ ok t
    → IsTimed s
    → IsTimed t
unfolding request_osm_download create_download
request_osm_download-IsTimed url user now s t h v =
    subst IsTimed (queue_job-ok _ s h).1
      (record { builds = v.builds; downloads = (λ h. cc, v.downloads) })

request_build-IsTimed :
    (trigger : Trigger) (user : Option ℕ) (image : Text) (now : ℕ) (s t : Jobs)
    → request_build trigger user image now s ≡ ok t
    → IsTimed s
    → IsTimed t
unfolding request_build
request_build-IsTimed trigger user image now s t h v =
    subst IsTimed (queue_job-ok (create_build (new_build trigger user image now) s) s h).1
      (create_build-IsTimed (new_build trigger user image now) s refl v)

finished-idle :
    (error : Option ErrorCode)
    → is_running (elim error [ none ↦ succeeded | some _ ↦ failed ]) ≡ false
finished-idle none = refl
finished-idle (some _) = refl

step-IsTimed : {s t : Jobs} → Step s t → IsTimed s → IsTimed t
unfolding heartbeat record_results record_rental mark_stopped finish_failed finish_succeeded
    begin_build begin_download finish_download fail_stale_osm_downloads
step-IsTimed (requested trigger user image now s t h) v =
    request_build-IsTimed trigger user image now s t h v
step-IsTimed (rolled_back target user image on_disk now s t h) v =
    request_rollback-IsTimed target user image on_disk now s t h v
step-IsTimed (osm_requested url user now s t h) v =
    request_osm_download-IsTimed url user now s t h v
step-IsTimed (began now id s t h) v = begin_row-IsTimed now (row_at build_key id s.builds) s t h v
step-IsTimed (began_download now id s t h) v =
    begin_download_row-IsTimed now (row_at download_key id s.downloads) s t h v
step-IsTimed (beat id now s) v = update_build-IsTimed id _ s (λ r k h. ground arith) v
step-IsTimed (recorded id results now s) v = update_build-IsTimed id _ s (λ r k h. ground arith) v
step-IsTimed (rented id results s) v = update_build-IsTimed id _ s (λ r k. k) v
step-IsTimed (stopped id now s) v = update_build-IsTimed id _ s (λ r k. k) v
step-IsTimed (Step.failed id code log now s) v = update_build-IsTimed id _ s (λ r k h. cc) v
step-IsTimed (activated id now s) v = record {
  builds =
      All-update_row HasHeartbeat (succeeded_row now) (λ r k h. cc) build_key id
        (map inactive_row s.builds)
        (All-map HasHeartbeat inactive_row (λ r k. k) s.builds v.builds);
  downloads = v.downloads;
}
step-IsTimed (ended id error size timestamp now s) v =
    update_download-IsTimed id (finished_download_row error size timestamp now) s
      (λ r k h. let idle = finished-idle error in cc) v
step-IsTimed (interrupted now s) v = record {
  builds = v.builds;
  downloads =
      All-map HasStart (interrupted_row now) (λ r k h. ground (arith, k)) s.downloads v.downloads;
}

pub Run-IsTimed : {s t : Jobs} → IsTimed s → Run s t → IsTimed t
Run-IsTimed v here = v
Run-IsTimed v (next run step) = step-IsTimed step (Run-IsTimed v run)
