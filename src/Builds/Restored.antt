-- ===== src/Builds/Restored.antt =====
-- How a build ends: its graph serves, or the one before does.
use otwarte_dane_transportow.Common.{
  ℕ, ◌≡◌, refl, ◌∙◌, Bool, true, false, some, List, [], ◌∷◌, map, inl, inr, if◌then◌else◌,
  Bool-cases, arith, ◌==◌, ◌||◌,
}
use otwarte_dane_transportow.Builds.Rows.{GraphBuild, succeeded, row_at, update_row, build_key}
use otwarte_dane_transportow.Builds.Queue.{graph_of, finish_succeeded, succeeded_row, inactive_row}
use otwarte_dane_transportow.Builds.World.{
  graph, link, up, down, PlannerState, Outside, Result, ok, err, Action, given, ◌>>=◌, ◌>>◌, modify,
  is_present,
}
use otwarte_dane_transportow.Builds.Candidates.{Candidate}
use otwarte_dane_transportow.Builds.Serving.{started_world, stopped_world, target_of}
use otwarte_dane_transportow.Builds.Activation.{
  activate, is_serving, commit_all, commit_build, stage_each, rename_each, rename_staged,
  remove_unused_graphs, give_up,
}
use otwarte_dane_transportow.Builds.Frame.{Keeps}
use otwarte_dane_transportow.Builds.Safe.{IsSafe, flag}
use otwarte_dane_transportow.Builds.Works.{
  IsWorking, pass, file_op-works, start_server-works, stop_server-works, point_serving_at-works,
  is_serving-Returns, stage_each-Returns, Returns,
}

-- The build's row says that it succeeded and is served, and its graph is.
pub record IsServed (id g : ℕ) (w : PlannerState) : Type 0 where
  pub row :
      (r : GraphBuild) × (row_at build_key id w.jobs.builds ≡ some r)
      × (r.status ≡ succeeded)
      × (r.is_active ≡ true)
  pub serving : w.serving ≡ link g
  pub server : w.server ≡ up (link g)

-- After a step: the graph serves, or an exception left the world safe.
abbrev pub ActionOutcome :
    (PlannerState → Type 0) → (PlannerState → Type 0) → Result (Unit {0}) × PlannerState → Type 0
ActionOutcome Good Bad (ok _, w) = Good w
ActionOutcome Good Bad (err _, w) = Bad w

module _ (I : PlannerState → Type 0) (Good Bad : PlannerState → Type 0)
    (bad : (w : PlannerState) → I w → Bad w) where
  given_outcome :
      {A : Type 0} (f : A → Action (Unit {0})) (r : Result A × PlannerState)
      → ((a : A) (w : PlannerState) → I w → ActionOutcome Good Bad (f a w))
      → I r.1
      → ActionOutcome Good Bad (given f r)
  given_outcome f (ok a, w) h v = h a w v
  given_outcome f (err e, w) h v = bad w v

  pub bind_outcome :
      {A : Type 0} {m : Action A} (f : A → Action (Unit {0}))
      → Keeps I m
      → ((a : A) (w : PlannerState) → I w → ActionOutcome Good Bad (f a w))
      → (w : PlannerState) → I w
      → ActionOutcome Good Bad ((m >>= f) w)
  bind_outcome {m = m} f k h w v = given_outcome f (m w) h (k.apply w v)

later-IsServed :
    (id g n t : ℕ) (w : PlannerState)
    → IsServed id g w
    → IsServed id g (record w { tick = n; now = t })
later-IsServed id g n t w v = record { row = v.row; serving = v.serving; server = v.server }

-- Rows with the same flags have the same keys.
pub is_known : ℕ → List GraphBuild → Bool
is_known id [] = false
is_known id (b ∷ bs) = (b.id == id) || is_known id bs

pub is_known_by_flags :
    (id : ℕ) (bs cs : List GraphBuild) → map flag bs ≡ map flag cs → is_known id bs ≡ is_known id cs
unfolding is_known
is_known_by_flags id [] [] h = refl
is_known_by_flags id [] (c ∷ cs) h = cc
is_known_by_flags id (b ∷ bs) [] h = cc
is_known_by_flags id (b ∷ bs) (c ∷ cs) h =
    let rest : map flag bs ≡ map flag cs = cc in
    let key : b.id ≡ c.id = cc in ground (arith, is_known_by_flags id bs cs rest)

is_known-inactive :
    (id : ℕ) (bs : List GraphBuild) → is_known id (map inactive_row bs) ≡ is_known id bs
unfolding is_known
is_known-inactive id [] = refl
is_known-inactive id (b ∷ bs) = ground (arith, is_known-inactive id bs)

pub found_known :
    (id : ℕ) (bs : List GraphBuild) (r : GraphBuild)
    → row_at build_key id bs ≡ some r
    → is_known id bs ≡ true
unfolding is_known
found_known id [] r h = cc
found_known id (b ∷ bs) r h = ground (arith, found_known id bs r)

-- The row of a known key, after an update of it.
pub updated_found :
    (id : ℕ) (f : GraphBuild → GraphBuild) (bs : List GraphBuild)
    → ((b : GraphBuild) → (f b).id ≡ b.id)
    → is_known id bs ≡ true
    → (b : GraphBuild) × (row_at build_key id (update_row build_key id f bs) ≡ some (f b))
unfolding is_known
updated_found id f [] h e = cc
updated_found id f (b ∷ bs) h e = elim (Bool-cases (b.id == id)) [
  | inl same ↦ let key : ((f b).id == id) ≡ true = rw (h b) same in (b, rw (same, key))
  | inr different ↦
      let (q, found) = updated_found id f bs h (ground arith) in
      (q, rw (different, different) found)
]

module _ (o : Outside) (works : IsWorking o) (before : PlannerState) (p : ℕ) where
  -- A failure after the server was stopped.
  abbrev pub IsBack : PlannerState → Type 0
  IsBack = IsSafe before (link p) down true

  rename_each-IsServed :
      (id g : ℕ) (fs : List ℕ) (w : PlannerState)
      → IsServed id g w
      → ActionOutcome (IsServed id g) IsBack ((rename_each o fs >> remove_unused_graphs o g) w)
  unfolding rename_each remove_unused_graphs
  rename_each-IsServed id g [] w v =
      rw (file_op-works o works _ w)
        (record { row = v.row; serving = v.serving; server = v.server })
  rename_each-IsServed id g (f ∷ fs) w v = rw (file_op-works o works (rename_staged o f) w) (
      rename_each-IsServed id g fs (rename_staged o f (pass o w))
        (record { row = v.row; serving = v.serving; server = v.server }))

  commit_build-IsServed :
      (id g : ℕ) (fresh : List Candidate) (w : PlannerState)
      → is_known id before.jobs.builds ≡ true
      → IsSafe before (link g) (up (link g)) true w
      → IsServed id g (commit_build o id fresh w)
  unfolding commit_build finish_succeeded
  commit_build-IsServed id g fresh w known v = record {
    row =
        let same : map flag w.jobs.builds ≡ map flag before.jobs.builds = v.kept.flags in
        let still : is_known id (map inactive_row w.jobs.builds) ≡ true =
          is_known-inactive id w.jobs.builds
          ∙ is_known_by_flags id w.jobs.builds before.jobs.builds same
          ∙ known in
        let (b, found) =
          updated_found id (succeeded_row w.now) (map inactive_row w.jobs.builds) (λ b. refl)
            still in
        (succeeded_row w.now b, found, refl, refl);
    serving = v.serving;
    server = v.server;
  }

  commit_all_outcome :
      (id g : ℕ) (fresh : List Candidate) (w : PlannerState)
      → is_known id before.jobs.builds ≡ true
      → IsSafe before (link g) (up (link g)) true w
      → ActionOutcome (IsServed id g) IsBack (commit_all o id g fresh w)
  unfolding commit_all
  commit_all_outcome id g fresh w known v =
      staged (stage_each o fresh w)
        (stage_each-Returns o works before (link g) (up (link g)) true fresh w v)
    where
      staged :
          (r : Result (List ℕ) × PlannerState)
          → Returns (IsSafe before (link g) (up (link g)) true) r
          → ActionOutcome (IsServed id g) IsBack (
              given
                (λ names.
                  modify (commit_build o id fresh)
                  >> (rename_each o names >> remove_unused_graphs o g))
                r)
      staged (ok names, w) v =
          rename_each-IsServed id g names (commit_build o id fresh w)
            (commit_build-IsServed id g fresh w known v)
      staged (err e, w) v = absurd v

  give_up-IsBack :
      (id g : ℕ) (w : PlannerState)
      → IsSafe before (link g) (up (link g)) true w
      → ActionOutcome (IsServed id g) IsBack (give_up o (some p) w)
  give_up-IsBack id g w v =
      rw
        (
          stop_server-works o works w,
          point_serving_at-works o works p g (stopped_world (pass o w)) v.serving,
        )
        (record {
          kept = record {
            feeds = v.kept.feeds;
            flags = v.kept.flags;
            snapshots = v.kept.snapshots;
          };
          serving = refl;
          server = refl;
          stopped = v.stopped;
        })

  judged_outcome :
      (build : GraphBuild) (fresh : List Candidate) (serves : Bool) (w : PlannerState)
      → is_known build.id before.jobs.builds ≡ true
      → IsSafe before (link (graph_of build)) (up (link (graph_of build))) true w
      → ActionOutcome
          (IsServed build.id (graph_of build))
          IsBack
          ((if serves then commit_all o build.id (graph_of build) fresh else give_up o (some p)) w)
  judged_outcome build fresh true w known v =
      commit_all_outcome build.id (graph_of build) fresh w known v
  judged_outcome build fresh false w known v = give_up-IsBack build.id (graph_of build) w v

  IsServed-outcome :
      (build : GraphBuild) (fresh : List Candidate) (r : Result Bool × PlannerState)
      → is_known build.id before.jobs.builds ≡ true
      → Returns (IsSafe before (link (graph_of build)) (up (link (graph_of build))) true) r
      → ActionOutcome (IsServed build.id (graph_of build)) IsBack (
          given
            (λ serves.
              if serves then commit_all o build.id (graph_of build) fresh else give_up o (some p))
            r)
  IsServed-outcome build fresh (ok serves, w) known v = judged_outcome build fresh serves w known v
  IsServed-outcome build fresh (err e, w) known v = absurd v

  pub activate_outcome :
      (build : GraphBuild) (included : List ℕ) (fresh : List Candidate) (w : PlannerState)
      → is_known build.id before.jobs.builds ≡ true
      → IsBack w
      → ActionOutcome
          (IsServed build.id (graph_of build))
          IsBack
          (activate o build included fresh w)
  unfolding activate
  activate_outcome build included fresh w known v =
      elim (Bool-cases (is_present (w.disk (graph (graph_of build))))) [
        | inl there ↦
            let g = graph_of build in
            let target : target_of w.serving ≡ some p = rw v.serving in
            let pointed : PlannerState = record (pass o w) { serving = link g } in
            rw
              (
                there,
                target,
                point_serving_at-works o works g p w v.serving,
                start_server-works o works pointed,
              )
              (IsServed-outcome build fresh
                (is_serving o build.id included (started_world (pass o pointed))) known
                (is_serving-Returns o works before (link g) (up (link g)) true build.id included
                  (started_world (pass o pointed))
                  (record {
                    kept = record {
                      feeds = v.kept.feeds;
                      flags = v.kept.flags;
                      snapshots = v.kept.snapshots;
                    };
                    serving = refl;
                    server = rw v.server;
                    stopped = v.stopped;
                  })))
        | inr missing ↦ rw missing v
      ]
