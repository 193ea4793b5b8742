-- ===== src/Builds/Gives.antt =====
-- What actions return, where they do not raise.
use otwarte_dane_transportow.Common.{Bool, true, false, if◌then◌else◌}
use otwarte_dane_transportow.Builds.World.{
  PlannerState, Failure, Result, ok, err, Action, pure, raise, given, ◌>>=◌,
}

module _ {A : Type 0} (P : A → Type 0) where
  -- The value that was returned, if one was, meets a condition.
  abbrev pub Holds : Result A × PlannerState → Type 0
  Holds (ok a, w) = P a
  Holds (err _, w) = Unit {0}

pub record Gives {A : Type 0} (P : A → Type 0) (m : Action A) : Type 0 where
  pub apply : (w : PlannerState) → Holds P (m w)

module _ {A : Type 0} {P : A → Type 0} where
  pub pure-Gives : (a : A) → P a → Gives P (pure a)
  pure-Gives a p = record { apply = λ w. p }

  pub raise-Gives : (e : Failure) → Gives P (raise e)
  raise-Gives e = record { apply = λ w. tt }

  pub if-Gives : (b : Bool) {m k : Action A} → Gives P m → Gives P k → Gives P (if b then m else k)
  if-Gives true h g = h
  if-Gives false h g = g

  given_gives :
      {B : Type 0} (f : B → Action A) (r : Result B × PlannerState)
      → ((b : B) → Gives P (f b))
      → Holds P (given f r)
  given_gives f (ok b, w) h = (h b).apply w
  given_gives f (err e, w) h = tt

  -- Whatever the first action returns.
  pub then-Gives :
      {B : Type 0} (m : Action B) (f : B → Action A) → ((b : B) → Gives P (f b)) → Gives P (m >>= f)
  then-Gives m f h = record { apply = λ w. given_gives f (m w) h }

  pub given_with :
      {B : Type 0} {Q : B → Type 0} (f : B → Action A) (r : Result B × PlannerState)
      → Holds Q r
      → ((b : B) → Q b → Gives P (f b))
      → Holds P (given f r)
  given_with f (ok b, w) q h = (h b q).apply w
  given_with f (err e, w) q h = tt

  pub bind-Gives :
      {B : Type 0} {Q : B → Type 0} {m : Action B} (f : B → Action A)
      → Gives Q m
      → ((b : B) → Q b → Gives P (f b))
      → Gives P (m >>= f)
  bind-Gives {m = m} f k h = record { apply = λ w. given_with f (m w) (k.apply w) h }
