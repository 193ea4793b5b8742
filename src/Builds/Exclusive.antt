-- ===== src/Builds/Exclusive.antt =====
-- Jobs exclude each other, and one graph at most is marked as served.
use otwarte_dane_transportow.Common.{
  ℕ, ◌≡◌, refl, sym, Bool, true, false, not, Option, none, some, map, if-cases, inl, inr, arith,
  Text,
}
use mathlib.Core.Path.{subst}
use mathlib.Core.Option.{some-injective}
use otwarte_dane_transportow.Builds.Rows.{
  GraphBuild, OsmDownload, Jobs, is_under_way, is_queued, row_at, build_key, download_key,
  succeeded, failed, ErrorCode, Trigger,
}
use otwarte_dane_transportow.Builds.Queue.{
  ok, refused, queue_job, create_build, request_build, request_rollback, request_osm_download,
  begin_build, begin_download, heartbeat, record_results, record_rental, mark_stopped,
  finish_failed, finish_succeeded, finish_download, inactive_row, succeeded_row, begin_row,
  begin_download_row, begun_row, begun_download_row, finished_download_row, new_build,
  rollback_build, is_not_activatable, build_not_activatable,
}
use otwarte_dane_transportow.Builds.Watch.{fail_stale_osm_downloads, interrupted_row}
use otwarte_dane_transportow.Builds.Tables.{
  HasKeys, map-update_row, map-map, row_at-key, count_rows-update_row-le, count_rows-map-le,
  count_rows-update_row-found, count_rows-update_row-one, count_rows-map-zero,
}
use otwarte_dane_transportow.Builds.Steps.{
  Step, requested, rolled_back, osm_requested, began, began_download, beat, recorded, rented,
  stopped, activated, ended, interrupted, Run, here, next,
}
use otwarte_dane_transportow.Builds.Exclusion.{
  is_job, is_download, is_served, IsExclusive, queue_job-ok, create_build-IsExclusive,
  create_download-IsExclusive, update_build-IsExclusive, update_download-IsExclusive, queued-job,
}

begin_build-IsExclusive :
    (now id : ℕ) (s t : Jobs) → begin_build now id s ≡ some t → IsExclusive s → IsExclusive t
unfolding begin_build
begin_build-IsExclusive now id s t h v = begun (row_at build_key id s.builds) refl h
  where
    begun :
        (o : Option GraphBuild)
        → row_at build_key id s.builds ≡ o
        → begin_row now o s ≡ some t
        → IsExclusive t
    begun none q g = cc
    begun (some b) q g = elim (if-cases (not (is_queued b.status)) _ _ g) [
      | inl (_, e) ↦ cc
      | inr (w, e) ↦ subst IsExclusive (some-injective _ _ e) (record {
        one_job = omega (
          arith,
          v.one_job,
          count_rows-update_row-found build_key is_job b.id s.next_build (begun_row now) s.builds b
              v.keys
              (subst (λ (k : ℕ). row_at build_key k s.builds ≡ some b)
                (sym (row_at-key build_key id s.builds b q)) q)
              (queued-job b.status w),
        );
        one_served = omega (
          arith,
          v.one_served,
          count_rows-update_row-le build_key is_served b.id (begun_row now) s.builds (λ r h. h),
        );
        keys =
            subst (HasKeys s.next_build)
              (sym (map-update_row build_key b.id (begun_row now) s.builds (λ r. refl))) v.keys;
        download_keys = v.download_keys;
      })
    ]

begin_download-IsExclusive :
    (now id : ℕ) (s t : Jobs) → begin_download now id s ≡ some t → IsExclusive s → IsExclusive t
unfolding begin_download
begin_download-IsExclusive now id s t h v = begun (row_at download_key id s.downloads) refl h
  where
    begun :
        (o : Option OsmDownload)
        → row_at download_key id s.downloads ≡ o
        → begin_download_row now o s ≡ some t
        → IsExclusive t
    begun none q g = cc
    begun (some d) q g = elim (if-cases (not (is_queued d.status)) _ _ g) [
      | inl (_, e) ↦ cc
      | inr (w, e) ↦ subst IsExclusive (some-injective _ _ e) (
          update_download-IsExclusive d.id (begun_download_row now) s (λ r. refl)
            (count_rows-update_row-found download_key is_download d.id s.next_download
              (begun_download_row now) s.downloads d v.download_keys
              (subst (λ (k : ℕ). row_at download_key k s.downloads ≡ some d)
                (sym (row_at-key download_key id s.downloads d q)) q)
              (queued-job d.status w))
            v)
    ]

finish_succeeded-IsExclusive :
    (id now : ℕ) (s : Jobs) → IsExclusive s → IsExclusive (finish_succeeded id now s)
unfolding finish_succeeded
finish_succeeded-IsExclusive id now s v =
    let same : map build_key (map inactive_row s.builds) ≡ map build_key s.builds =
      map-map build_key inactive_row s.builds (λ r. refl) in
    let keys = subst (HasKeys s.next_build) (sym same) v.keys in
    record {
      one_job = omega (
        arith,
        v.one_job,
        count_rows-update_row-le build_key is_job id (succeeded_row now) (map inactive_row s.builds)
            (λ r h. cc),
        count_rows-map-le is_job inactive_row s.builds (λ r h. h),
      );
      one_served =
          count_rows-update_row-one build_key is_served id s.next_build (succeeded_row now)
            (map inactive_row s.builds) keys
            (count_rows-map-zero is_served inactive_row s.builds (λ r. refl));
      keys =
          subst (HasKeys s.next_build)
            (sym (
              map-update_row build_key id (succeeded_row now) (map inactive_row s.builds)
                (λ r. refl)))
            keys;
      download_keys = v.download_keys;
    }

finished-job :
    (error : Option ErrorCode)
    → is_under_way (elim error [ none ↦ succeeded | some _ ↦ failed ]) ≡ false
finished-job none = refl
finished-job (some _) = refl

interrupted_row-job :
    (now : ℕ) (d : OsmDownload) → is_download (interrupted_row now d) ≡ true → is_download d ≡ true
interrupted_row-job now d h = ground arith

interrupted_row-key :
    (now : ℕ) (d : OsmDownload) → download_key (interrupted_row now d) ≡ download_key d
interrupted_row-key now d = ground arith

interrupted-IsExclusive :
    (now : ℕ) (s : Jobs) → IsExclusive s → IsExclusive (fail_stale_osm_downloads now s)
unfolding fail_stale_osm_downloads
interrupted-IsExclusive now s v = record {
  one_job = omega (
    arith,
    v.one_job,
    count_rows-map-le is_download (interrupted_row now) s.downloads (interrupted_row-job now),
  );
  one_served = v.one_served;
  keys = v.keys;
  download_keys =
      subst (HasKeys s.next_download)
        (sym (map-map download_key (interrupted_row now) s.downloads (interrupted_row-key now)))
        v.download_keys;
}

ended-IsExclusive :
    (id : ℕ) (error : Option ErrorCode) (size timestamp : Option ℕ) (now : ℕ) (s : Jobs)
    → IsExclusive s
    → IsExclusive (finish_download id error size timestamp now s)
unfolding finish_download
ended-IsExclusive id error size timestamp now s v =
    update_download-IsExclusive id (finished_download_row error size timestamp now) s (λ r. refl)
      (count_rows-update_row-le download_key is_download id
        (finished_download_row error size timestamp now) s.downloads
        (λ r h. let off = finished-job error in cc))
      v

request_build-IsExclusive :
    (trigger : Trigger) (user : Option ℕ) (image : Text) (now : ℕ) (s t : Jobs)
    → request_build trigger user image now s ≡ ok t
    → IsExclusive s
    → IsExclusive t
unfolding request_build
request_build-IsExclusive trigger user image now s t h v =
    let (idle, e) = queue_job-ok (create_build (new_build trigger user image now) s) s h in
    subst IsExclusive e (create_build-IsExclusive _ s refl v idle)

request_rollback-IsExclusive :
    (target : GraphBuild) (user : Option ℕ) (image : Text) (on_disk : Bool) (now : ℕ) (s t : Jobs)
    → request_rollback target user image on_disk now s ≡ ok t
    → IsExclusive s
    → IsExclusive t
unfolding request_rollback
request_rollback-IsExclusive target user image on_disk now s t h v =
    elim (if-cases (is_not_activatable target image on_disk) (refused build_not_activatable)
      (queue_job (create_build (rollback_build target user now) s) s) h) [
        | inl (_, e) ↦ cc
        | inr (_, q) ↦
            let (idle, e) = queue_job-ok (create_build (rollback_build target user now) s) s q in
            subst IsExclusive e (create_build-IsExclusive _ s refl v idle)
      ]

request_osm_download-IsExclusive :
    (url : Text) (user : Option ℕ) (now : ℕ) (s t : Jobs)
    → request_osm_download url user now s ≡ ok t
    → IsExclusive s
    → IsExclusive t
unfolding request_osm_download
request_osm_download-IsExclusive url user now s t h v =
    let (idle, e) = queue_job-ok _ s h in
    subst IsExclusive e (create_download-IsExclusive _ s v idle)

step-IsExclusive : {s t : Jobs} → Step s t → IsExclusive s → IsExclusive t
unfolding heartbeat record_results record_rental mark_stopped finish_failed
step-IsExclusive (requested trigger user image now s t h) v =
    request_build-IsExclusive trigger user image now s t h v
step-IsExclusive (rolled_back target user image on_disk now s t h) v =
    request_rollback-IsExclusive target user image on_disk now s t h v
step-IsExclusive (osm_requested url user now s t h) v =
    request_osm_download-IsExclusive url user now s t h v
step-IsExclusive (began now id s t h) v = begin_build-IsExclusive now id s t h v
step-IsExclusive (began_download now id s t h) v = begin_download-IsExclusive now id s t h v
step-IsExclusive (beat id now s) v =
    update_build-IsExclusive id _ s (λ r. refl) (λ r h. h) (λ r h. h) v
step-IsExclusive (recorded id results now s) v =
    update_build-IsExclusive id _ s (λ r. refl) (λ r h. h) (λ r h. h) v
step-IsExclusive (rented id results s) v =
    update_build-IsExclusive id _ s (λ r. refl) (λ r h. h) (λ r h. h) v
step-IsExclusive (stopped id now s) v =
    update_build-IsExclusive id _ s (λ r. refl) (λ r h. h) (λ r h. h) v
step-IsExclusive (Step.failed id code log now s) v =
    update_build-IsExclusive id _ s (λ r. refl) (λ r h. cc) (λ r h. h) v
step-IsExclusive (activated id now s) v = finish_succeeded-IsExclusive id now s v
step-IsExclusive (ended id error size timestamp now s) v =
    ended-IsExclusive id error size timestamp now s v
step-IsExclusive (interrupted now s) v = interrupted-IsExclusive now s v

-- In every order of requests, workers and rounds of the watchdog, late writes of lost workers
-- included: one build or OSM download at most is queued or running, one build at most is marked
-- as served, and keys stay different, if the run begins so.
pub Run-IsExclusive : {s t : Jobs} → IsExclusive s → Run s t → IsExclusive t
Run-IsExclusive v here = v
Run-IsExclusive v (next run step) = step-IsExclusive step (Run-IsExclusive v run)
