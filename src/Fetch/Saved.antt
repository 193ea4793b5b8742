-- ===== src/Fetch/Saved.antt =====
-- Saving only the changed fields writes all that a transition changed.
use otwarte_dane_transportow.Common.{ℕ, ◌≡◌, refl, Text, arith}
use otwarte_dane_transportow.Fetch.Control.{
  FetchControl, Source, mark_fetch_success, mark_fetch_failure, pause_fetch, resume_fetch,
}

-- An operation of a source, as the history of a feed records them.
pub data Event : Type 0 where
  succeed : ℕ → Event
  fail : Text → ℕ → Event
  pause : Text → ℕ → Event
  resume : Event

unfoldable pub apply : Event → Source → Source
unfolding mark_fetch_success mark_fetch_failure pause_fetch resume_fetch
apply (succeed now) s = mark_fetch_success now s
apply (fail reason now) s = mark_fetch_failure reason now s
apply (pause reason now) s = pause_fetch reason now s
apply resume s = resume_fetch s

-- What a freshly loaded object is: equal to its row.
abbrev pub load : FetchControl → Source
load r = record { object = r; row = r }

-- On a freshly loaded object, every transition leaves the row equal to the object: its
-- `update_fields` list misses no field that it changed.
pub apply-saves_all :
    (e : Event) (r : FetchControl) → (apply e (load r)).row ≡ (apply e (load r)).object
unfolding apply
apply-saves_all (succeed now) r = refl
apply-saves_all (fail reason now) r = ground arith
apply-saves_all (pause reason now) r = refl
apply-saves_all resume r = refl
