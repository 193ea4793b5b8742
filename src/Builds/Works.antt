-- ===== src/Builds/Works.antt =====
-- Docker and the files when nothing goes wrong with them, and the parts of an activation then.
use otwarte_dane_transportow.Common.{
  ℕ, zero, suc, ◌+◌, ◌≡◌, refl, Bool, true, false, none, some, List, [], ◌∷◌, if◌then◌else◌, leb,
}
use otwarte_dane_transportow.Builds.Queue.{heartbeat}
use otwarte_dane_transportow.Builds.World.{
  Serving, link, Server, up, down, PlannerState, done, Outside, Result, ok, err, Action, pure,
  given, ◌>>◌, modify, file_op, database,
}
use otwarte_dane_transportow.Builds.Candidates.{Candidate}
use otwarte_dane_transportow.Builds.Serving.{
  stop_server, start_server, server_running, start_serving, point_serving_at, started_world,
  server_started, stopped_world, is_up, wait_rounds, wait_until_healthy, serves_feeds, is_directory,
  server_poll_seconds, known, enough_rounds, server_start_timeout_seconds,
}
use otwarte_dane_transportow.Builds.Activation.{
  is_serving, stage_snapshot, stage_each, link_staged, add_staged,
}
use otwarte_dane_transportow.Builds.Frame.{
  pure-Keeps, raise-Keeps, gets-Keeps, bind-Keeps, catch-Keeps, raise_if-Keeps, act_if-Keeps,
  if-Keeps,
}
use otwarte_dane_transportow.Builds.Safe.{IsSafe, later-IsSafe, disk-IsSafe, beat}

ruleset steps = (
  pure-Keeps, raise-Keeps, gets-Keeps, bind-Keeps, catch-Keeps, raise_if-Keeps, act_if-Keeps,
  if-Keeps,
)

-- No file operation fails, and Docker does what it is asked.
pub record IsWorking (o : Outside) : Type 0 where
  pub files : (n : ℕ) → o.file_error n ≡ false
  pub stops : (n : ℕ) → o.stop n ≡ done
  pub starts : (n : ℕ) → o.start n ≡ done
  pub sees : (n : ℕ) → o.sees_server n ≡ true

-- The world after a call to the outside.
abbrev pub pass : Outside → PlannerState → PlannerState
pass o w = record w { tick = suc w.tick; now = w.now + o.delay w.tick }

module _ (o : Outside) (works : IsWorking o) where
  pub file_op-works :
      (f : PlannerState → PlannerState) (w : PlannerState) → file_op o f w ≡ (ok tt, f (pass o w))
  file_op-works f w = rw (works.files w.tick)

  pub start_server-works : (w : PlannerState) → start_server o w ≡ (ok tt, started_world (pass o w))
  unfolding start_server
  start_server-works w = rw (works.starts w.tick)

  pub stop_server-works : (w : PlannerState) → stop_server o w ≡ (ok tt, stopped_world (pass o w))
  unfolding stop_server
  stop_server-works w = rw (works.stops w.tick)

  pub server_running-works :
      (w : PlannerState) → server_running o w ≡ (ok (is_up w.server), pass o w)
  unfolding server_running
  server_running-works w = rw (works.sees w.tick)

  pub point_serving_at-works :
      (g k : ℕ) (w : PlannerState)
      → w.serving ≡ link k
      → point_serving_at o g w ≡ (ok tt, record (pass o w) { serving = link g })
  unfolding point_serving_at
  point_serving_at-works g k w h =
      let file : is_directory w.serving ≡ false = rw h in
      rw file (file_op-works (λ (v : PlannerState). record v { serving = link g }) w)

  -- The server that was stopped comes back on the link, and one that runs is left alone.
  pub start_serving-down :
      (w : PlannerState)
      → w.server ≡ down
      → start_serving o w ≡ (ok tt, record (pass o (pass o w)) { server = up w.serving })
  unfolding start_serving
  start_serving-down w h =
      let off : is_up w.server ≡ false = rw h in
      let back : server_started w.serving w.server ≡ up w.serving = rw h in
      rw (server_running-works w, off, start_server-works (pass o w), back)

  pub start_serving-up :
      (s : Serving) (w : PlannerState) → w.server ≡ up s → start_serving o w ≡ (ok tt, pass o w)
  unfolding start_serving
  start_serving-up s w h = let on : is_up w.server ≡ true = rw h in rw (server_running-works w, on)

module _ {A : Type 0} (I : PlannerState → Type 0) where
  -- The action returned, and the condition holds.
  abbrev pub Returns : Result A × PlannerState → Type 0
  Returns (ok _, w) = I w
  Returns (err _, w) = ⊥

module _ {A B : Type 0} (I : PlannerState → Type 0) (f : A → Action B) where
  pub given-Returns :
      (r : Result A × PlannerState)
      → ((a : A) (w : PlannerState) → I w → Returns I (f a w))
      → Returns I r
      → Returns I (given f r)
  given-Returns (ok a, w) h v = h a w v
  given-Returns (err e, w) h v = absurd v

module _ (o : Outside) (works : IsWorking o) (before : PlannerState) (serving : Serving)
    (server : Server) (stopped : Bool) where
  abbrev Here : PlannerState → Type 0
  Here = IsSafe before serving server stopped

  pass-Here : (w : PlannerState) → Here w → Here (pass o w)
  pass-Here w v = later-IsSafe before serving server stopped _ _ w v

  -- A round of the wait, after the answers of the server and the clock.
  judged-Returns :
      (n id deadline : ℕ) (healthy late : Bool) (w : PlannerState)
      → ((w : PlannerState) → Here w → Returns Here (wait_rounds o n id deadline w))
      → Here w
      → Returns Here (
          (if healthy
              then pure (some true)
              else if late
              then pure (some false)
              else (database o (heartbeat id)
                  >> (modify (λ w. record w { now = w.now + server_poll_seconds })
                      >> wait_rounds o n id deadline)))
            w)
  judged-Returns n id deadline true late w rec v = v
  judged-Returns n id deadline false true w rec v = v
  judged-Returns n id deadline false false w rec v =
      let beaten = (beat before serving server stopped o id).apply w v in
      rec _ (later-IsSafe before serving server stopped _ _ _ beaten)

  wait_rounds-Returns :
      (n id deadline : ℕ) (w : PlannerState) → Here w → Returns Here (wait_rounds o n id deadline w)
  unfolding wait_rounds
  wait_rounds-Returns zero id deadline w v = v
  wait_rounds-Returns (suc n) id deadline w v =
      judged-Returns n id deadline (o.is_healthy w.tick) (leb deadline (pass o w).now) (pass o w)
        (wait_rounds-Returns n id deadline) (pass-Here w v)

  asked_feeds :
      (healthy : Bool) (feeds : List ℕ) (w : PlannerState)
      → Here w
      → Returns Here ((if healthy then serves_feeds o feeds else pure false) w)
  unfolding serves_feeds
  asked_feeds true feeds w v = pass-Here w v
  asked_feeds false feeds w v = v

  -- Whether the new graph serves is found out without an exception.
  pub is_serving-Returns :
      (id : ℕ) (feeds : List ℕ) (w : PlannerState) → Here w → Returns Here (is_serving o id feeds w)
  unfolding is_serving wait_until_healthy
  is_serving-Returns id feeds w v =
      given-Returns Here (λ healthy. if healthy then serves_feeds o feeds else pure false)
        (wait_until_healthy o id w) (λ healthy t u. asked_feeds healthy feeds t u)
        (given-Returns Here (λ healthy. pure (known healthy))
          (wait_rounds o enough_rounds id (w.now + server_start_timeout_seconds) w)
          (λ healthy t u. u)
          (wait_rounds-Returns enough_rounds id (w.now + server_start_timeout_seconds) w v))

  stage_snapshot-Returns :
      (c : Candidate) (w : PlannerState) → Here w → Returns Here (stage_snapshot o c w)
  unfolding stage_snapshot
  stage_snapshot-Returns c w v = choose _
    where
      choose : (b : Bool) → Returns Here ((if b then pure none else link_staged o c) w)
      choose true = v
      choose false = rw (file_op-works o works _ w) (
          disk-IsSafe before serving server stopped _ (pass o w) (λ k. refl)
            (later-IsSafe before serving server stopped _ _ w v))

  pub stage_each-Returns :
      (cs : List Candidate) (w : PlannerState) → Here w → Returns Here (stage_each o cs w)
  unfolding stage_each
  stage_each-Returns [] w v = v
  stage_each-Returns (c ∷ cs) w v =
      given-Returns Here _ (stage_snapshot o c w)
        (λ f t u.
          given-Returns Here (λ fs. pure (add_staged o f fs)) (stage_each o cs t) (λ fs q x. x)
            (stage_each-Returns cs t u))
        (stage_snapshot-Returns c w v)
