-- ===== src/Builds/Exclusion.antt =====
-- The exclusion of jobs, and what keeps it: a new job, and a write to a row.
use otwarte_dane_transportow.Common.{
  ℕ, ◌+◌, ◌≤◌, ◌≡◌, refl, sym, Bool, true, false, not, map, any, Bool-cases, inl, inr, arith,
}
use mathlib.Core.Path.{subst}
use otwarte_dane_transportow.Builds.Rows.{
  GraphBuild, OsmDownload, Jobs, is_under_way, is_queued, update_row, build_key, download_key,
  queued, running, succeeded, failed, JobStatus,
}
use otwarte_dane_transportow.Builds.Queue.{ok, queue_job, create_build, create_download}
use otwarte_dane_transportow.Builds.Tables.{
  HasKeys, next_fresh, raise-HasKeys, count_rows, any-count_rows, map-update_row,
  count_rows-update_row-le,
}

abbrev pub is_job : GraphBuild → Bool
is_job b = is_under_way b.status

abbrev pub is_download : OsmDownload → Bool
is_download d = is_under_way d.status

abbrev pub is_served : GraphBuild → Bool
is_served b = b.is_active

-- The jobs that are queued or running.
abbrev pub under_way : Jobs → ℕ
under_way s = count_rows is_job s.builds + count_rows is_download s.downloads

pub record IsExclusive (s : Jobs) : Type 0 where
  pub one_job : under_way s ≤ 1
  pub one_served : count_rows is_served s.builds ≤ 1
  pub keys : HasKeys s.next_build (map build_key s.builds)
  pub download_keys : HasKeys s.next_download (map download_key s.downloads)

-- What a request that was queued found, and did.
pub queue_job-ok :
    (created s : Jobs) {t : Jobs} → queue_job created s ≡ ok t → (under_way s ≡ 0) × (created ≡ t)
queue_job-ok created s h = elim (Bool-cases (any is_job s.builds)) [
  | inl a ↦ ground arith
  | inr a ↦ elim (Bool-cases (any is_download s.downloads)) [
    | inl b ↦ ground arith
    | inr b ↦
        ground (arith, any-count_rows is_job s.builds a, any-count_rows is_download s.downloads b)
  ]
]

pub create_build-IsExclusive :
    (fields : GraphBuild) (s : Jobs)
    → is_served fields ≡ false
    → IsExclusive s
    → under_way s ≡ 0
    → IsExclusive (create_build fields s)
unfolding create_build
create_build-IsExclusive fields s off v z =
    let low = raise-HasKeys s.next_build (map build_key s.builds) v.keys in
    let other = next_fresh s.next_build (map build_key s.builds) v.keys in ground arith

pub create_download-IsExclusive :
    (fields : OsmDownload) (s : Jobs)
    → IsExclusive s
    → under_way s ≡ 0
    → IsExclusive (create_download fields s)
unfolding create_download
create_download-IsExclusive fields s v z =
    let low = raise-HasKeys s.next_download (map download_key s.downloads) v.download_keys in
    let other = next_fresh s.next_download (map download_key s.downloads) v.download_keys in
    ground arith

-- A write to a row that starts no job and marks no graph.
pub update_build-IsExclusive :
    (id : ℕ) (f : GraphBuild → GraphBuild) (s : Jobs)
    → ((r : GraphBuild) → (f r).id ≡ r.id)
    → ((r : GraphBuild) → is_job (f r) ≡ true → is_job r ≡ true)
    → ((r : GraphBuild) → is_served (f r) ≡ true → is_served r ≡ true)
    → IsExclusive s
    → IsExclusive (record s { builds = update_row build_key id f s.builds })
update_build-IsExclusive id f s same starts serves v = record {
  one_job =
      omega (arith, v.one_job, count_rows-update_row-le build_key is_job id f s.builds starts);
  one_served =
      omega
        (arith, v.one_served, count_rows-update_row-le build_key is_served id f s.builds serves);
  keys = subst (HasKeys s.next_build) (sym (map-update_row build_key id f s.builds same)) v.keys;
  download_keys = v.download_keys;
}

pub update_download-IsExclusive :
    (id : ℕ) (f : OsmDownload → OsmDownload) (s : Jobs)
    → ((r : OsmDownload) → (f r).id ≡ r.id)
    → count_rows is_download (update_row download_key id f s.downloads)
      ≤ count_rows is_download s.downloads
    → IsExclusive s
    → IsExclusive (record s { downloads = update_row download_key id f s.downloads })
update_download-IsExclusive id f s same starts v = record {
  one_job = omega (arith, v.one_job, starts);
  one_served = v.one_served;
  keys = v.keys;
  download_keys =
      subst (HasKeys s.next_download) (sym (map-update_row download_key id f s.downloads same))
        v.download_keys;
}

pub queued-job : (status : JobStatus) → not (is_queued status) ≡ false → is_under_way status ≡ true
queued-job queued h = refl
queued-job running h = cc
queued-job succeeded h = cc
queued-job failed h = cc
