-- ===== src/Loops/Steps.antt =====
-- The steps around one endpoint, in any order.
use otwarte_dane_transportow.Common.{ℕ, ◌+◌, ◌≡◌, Bool, Option, List, ◌∷◌, ◌++◌, ◌≤◌, Text}
use otwarte_dane_transportow.Loops.Markers.{EndpointRow, Loop}
use otwarte_dane_transportow.Loops.Task.{start, finish}
use otwarte_dane_transportow.Loops.Seeding.{bootstrap, schedule, pause_view, resume_view}

pub data Step : Loop → Loop → Type 0 where
  ticked : (d : ℕ) (s : Loop) → Step s (record s { now = s.now + d })
  -- A fetch, a review or an edit stores the row, or deletes it.
  stored : (row : Option EndpointRow) (s : Loop) → Step s (record s { row = row })
  started :
      (sent : Bool) (before after : List ℕ) (message : ℕ) (s : Loop)
      → s.queued ≡ before ++ message ∷ after
      → message ≤ s.now
      → Step s ((start sent message (record s { queued = before ++ after })).0)
  finished :
      (sent : Bool) (before after : List ℕ) (message : ℕ) (s : Loop)
      → s.running ≡ before ++ message ∷ after
      → Step s (finish sent (record s { running = before ++ after }))
  -- A worker that dies in a fetch leaves its lock.
  killed :
      (before after : List ℕ) (message : ℕ) (s : Loop)
      → s.running ≡ before ++ message ∷ after
      → Step s (record s { running = before ++ after })
  bootstrapped : (sent : Bool) (stagger : ℕ) (s : Loop) → Step s (bootstrap sent stagger s)
  scheduled : (sent : Bool) (s : Loop) → Step s (schedule sent s)
  paused :
      (is_operator : Bool) (reason : Text) (s : Loop) → Step s (pause_view is_operator reason s)
  resumed : (is_operator : Bool) (s : Loop) → Step s (resume_view is_operator s)
