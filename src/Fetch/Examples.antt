-- ===== src/Fetch/Examples.antt =====
-- Runs of the fetch state, and the theorems at them.
use otwarte_dane_transportow.Common.{ℕ, ◌+◌, ◌≤◌, ◌≡◌, refl, some, List, [], ◌∷◌, Text}
use otwarte_dane_transportow.Fetch.Control.{active, auto_paused, FetchControl, minutes, new_control}
use otwarte_dane_transportow.Fetch.Saved.{Event, fail, succeed, pause, apply, load}
use otwarte_dane_transportow.Fetch.Invariant.{IsConsistent, run, run-IsConsistent}
use otwarte_dane_transportow.Fetch.Retries.{poll_all, attempts, attempts-le_four}
use otwarte_dane_transportow.Fetch.Race.{in_flight, in_flight-loses_pause}

abbrev three_failures : List Event
three_failures = fail [] 10 ∷ fail [] 20 ∷ fail [] 30 ∷ []

third_delay : (run three_failures new_control).next_fetch_after ≡ some (30 + minutes 360)
unfolding run apply
third_delay = refl

gives_up : (run (fail [] 5 ∷ three_failures) new_control).fetch_status ≡ auto_paused
unfolding run apply
gives_up = refl

recovers :
    (run (fail [] 5 ∷ pause [] 6 ∷ fail [] 7 ∷ succeed 8 ∷ []) new_control).fetch_status ≡ active
unfolding run apply
recovers = refl

run-IsConsistent_example : IsConsistent (run three_failures new_control)
run-IsConsistent_example = run-IsConsistent three_failures

abbrev once_failed : FetchControl
once_failed = run (fail [] 10 ∷ []) new_control

abbrev polls : List (Text × ℕ)
polls = ([], 1) ∷ ([], 2) ∷ ([], 400000000) ∷ []

attempts-le_four_example :
    (attempts polls new_control ≤ 4)
    × ((poll_all polls new_control).fetch_status ≡ auto_paused → attempts polls new_control ≡ 4)
attempts-le_four_example = attempts-le_four polls

in_flight-loses_pause_example :
    (in_flight [] 5 (succeed 6) new_control ≡ (apply (succeed 6) (load new_control)).row)
    × (in_flight [] 5 (fail [] 6) new_control ≡ (apply (fail [] 6) (load new_control)).row)
in_flight-loses_pause_example = in_flight-loses_pause [] [] 5 6 new_control
