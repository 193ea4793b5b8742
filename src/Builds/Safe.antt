-- ===== src/Builds/Safe.antt =====
-- What every step of a build before its activation keeps, so that a failure leaves the previous graph
-- serving.
use otwarte_dane_transportow.Common.{ℕ, ◌≡◌, refl, ◌∙◌, Bool, List, [], ◌∷◌, map, arith}
use otwarte_dane_transportow.Builds.Rows.{GraphBuild, FeedResult, Jobs, update_row, build_key}
use otwarte_dane_transportow.Builds.Queue.{heartbeat, record_results}
use otwarte_dane_transportow.Builds.World.{
  snapshot, Disk, Server, Serving, PlannerState, Outside, ask, file_op, database,
}
use otwarte_dane_transportow.Builds.Frame.{Keeps, modify-Keeps, ask-Keeps, file_op-Keeps}

-- A build's key, and whether it is marked as served.
abbrev pub flag : GraphBuild → ℕ × Bool
flag b = (b.id, b.is_active)

abbrev pub flags : Jobs → List (ℕ × Bool)
flags jobs = map flag jobs.builds

-- Marks, last good versions and snapshots are those of `before`.
pub record IsKept (before w : PlannerState) : Type 0 where
  pub feeds : w.feeds ≡ before.feeds
  pub flags : flags w.jobs ≡ flags before.jobs
  pub snapshots : (k : ℕ) → w.disk (snapshot k) ≡ before.disk (snapshot k)

-- So too the link and the server, and whether the build stopped it.
pub record IsSafe (before : PlannerState) (link_of : Serving) (state : Server) (off : Bool)
    (w : PlannerState) : Type 0 where
  pub kept : IsKept before w
  pub serving : w.serving ≡ link_of
  pub server : w.server ≡ state
  pub stopped : w.stopped ≡ off

pub flags-update_row :
    (id : ℕ) (f : GraphBuild → GraphBuild) (bs : List GraphBuild)
    → ((b : GraphBuild) → flag (f b) ≡ flag b)
    → map flag (update_row build_key id f bs) ≡ map flag bs
flags-update_row id f [] h = refl
flags-update_row id f (b ∷ bs) h = ground (arith, h b, flags-update_row id f bs h)

module _ (before : PlannerState) (serving : Serving) (server : Server) (stopped : Bool) where
  pub later-IsSafe :
      (n t : ℕ) (w : PlannerState)
      → IsSafe before serving server stopped w
      → IsSafe before serving server stopped (record w { tick = n; now = t })
  later-IsSafe n t w v = record {
    kept = record { feeds = v.kept.feeds; flags = v.kept.flags; snapshots = v.kept.snapshots };
    serving = v.serving;
    server = v.server;
    stopped = v.stopped;
  }

  pub jobs-IsSafe :
      (jobs : Jobs) (w : PlannerState)
      → flags jobs ≡ flags w.jobs
      → IsSafe before serving server stopped w
      → IsSafe before serving server stopped (record w { jobs = jobs })
  jobs-IsSafe jobs w same v = record {
    kept = record {
      feeds = v.kept.feeds;
      flags = same ∙ v.kept.flags;
      snapshots = v.kept.snapshots;
    };
    serving = v.serving;
    server = v.server;
    stopped = v.stopped;
  }

  pub disk-IsSafe :
      (disk : Disk) (w : PlannerState)
      → ((k : ℕ) → disk (snapshot k) ≡ w.disk (snapshot k))
      → IsSafe before serving server stopped w
      → IsSafe before serving server stopped (record w { disk = disk })
  disk-IsSafe disk w same v = record {
    kept = record {
      feeds = v.kept.feeds;
      flags = v.kept.flags;
      snapshots = λ k. same k ∙ v.kept.snapshots k;
    };
    serving = v.serving;
    server = v.server;
    stopped = v.stopped;
  }

  module _ (o : Outside) where
    pub asked : {A : Type 0} (f : ℕ → A) → Keeps (IsSafe before serving server stopped) (ask o f)
    asked f = ask-Keeps o later-IsSafe f

    pub saved :
        (f : ℕ → Jobs → Jobs)
        → ((now : ℕ) (jobs : Jobs) → flags (f now jobs) ≡ flags jobs)
        → Keeps (IsSafe before serving server stopped) (database o f)
    saved f same = modify-Keeps _ (λ w v. jobs-IsSafe (f w.now w.jobs) w (same w.now w.jobs) v)

    pub filed :
        (f : Disk → Disk)
        → ((disk : Disk) (k : ℕ) → f disk (snapshot k) ≡ disk (snapshot k))
        → Keeps
            (IsSafe before serving server stopped)
            (file_op o (λ w. record w { disk = f w.disk }))
    filed f same =
        file_op-Keeps o later-IsSafe (λ w. record w { disk = f w.disk })
          (λ w v. disk-IsSafe (f w.disk) w (same w.disk) v)

    pub touched : Keeps (IsSafe before serving server stopped) (file_op o (λ w. w))
    touched = file_op-Keeps o later-IsSafe (λ w. w) (λ w v. v)

    pub beat : (id : ℕ) → Keeps (IsSafe before serving server stopped) (database o (heartbeat id))
    unfolding heartbeat
    beat id = saved (heartbeat id) (λ now jobs. flags-update_row id _ jobs.builds (λ b. refl))

    pub resulted :
        (id : ℕ) (results : List FeedResult)
        → Keeps (IsSafe before serving server stopped) (database o (record_results id results))
    unfolding record_results
    resulted id results =
        saved (record_results id results)
          (λ now jobs. flags-update_row id _ jobs.builds (λ b. refl))
