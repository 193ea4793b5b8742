-- ===== src/Builds/Rounds.antt =====
-- The wait for the server to become healthy ends.
use otwarte_dane_transportow.Common.{
  ℕ, zero, suc, ◌+◌, ◌*◌, ◌≤◌, ◌≡◌, refl, Bool, true, false, Option, some, ◌⊎◌, inl, inr,
  if◌then◌else◌, leb, leb→le, arith,
}
use otwarte_dane_transportow.Builds.Queue.{heartbeat}
use otwarte_dane_transportow.Builds.World.{
  PlannerState, Outside, Result, ok, pure, ◌>>◌, modify, database,
}
use otwarte_dane_transportow.Builds.Serving.{
  wait_rounds, enough_rounds, server_poll_seconds, server_start_timeout_seconds,
}
use otwarte_dane_transportow.Builds.Works.{pass}

-- The wait ended by an answer: healthy, or not before the deadline.
abbrev pub Ends : ℕ → Result (Option Bool) × PlannerState → Type 0
Ends deadline r = (r.0 ≡ ok (some true)) ⊎ ((r.0 ≡ ok (some false)) × (deadline ≤ r.1.now))

judged-Ends :
    (o : Outside) (n id deadline : ℕ) (healthy late : Bool) (w : PlannerState)
    → (late ≡ true → deadline ≤ w.now)
    → (late ≡ false
        → Ends deadline (
            wait_rounds o n id deadline
              (record w { jobs = heartbeat id w.now w.jobs; now = w.now + server_poll_seconds })))
    → Ends deadline (
        (if healthy
            then pure (some true)
            else if late
            then pure (some false)
            else (database o (heartbeat id)
                >> (modify (λ w. record w { now = w.now + server_poll_seconds })
                    >> wait_rounds o n id deadline)))
          w)
judged-Ends o n id deadline true late w h k = inl refl
judged-Ends o n id deadline false true w h k = inr (refl, h refl)
judged-Ends o n id deadline false false w h k = k refl

rounds_end :
    (o : Outside) (n id deadline : ℕ) (w : PlannerState)
    → deadline ≤ w.now + server_poll_seconds * n
    → Ends deadline (wait_rounds o (suc n) id deadline w)
unfolding wait_rounds
rounds_end o zero id deadline w h =
    judged-Ends o zero id deadline (o.is_healthy w.tick) (leb deadline (pass o w).now) (pass o w)
      (λ late. omega arith) (λ early. absurd (ground arith))
rounds_end o (suc n) id deadline w h =
    judged-Ends o (suc n) id deadline (o.is_healthy w.tick) (leb deadline (pass o w).now) (pass o w)
      (λ late. leb→le _ _ late) (λ early. rounds_end o n id deadline _ (omega arith))

-- The wait for a server ends within its 121 polls, however long they take: the server is healthy, or
-- the 20 minutes are over.
pub wait_rounds-Ends :
    (o : Outside) (id : ℕ) (w : PlannerState)
    → Ends
        (w.now + server_start_timeout_seconds)
        (wait_rounds o enough_rounds id (w.now + server_start_timeout_seconds) w)
wait_rounds-Ends o id w = rounds_end o 120 id (w.now + server_start_timeout_seconds) w (omega arith)
