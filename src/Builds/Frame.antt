-- ===== src/Builds/Frame.antt =====
-- Actions that keep a condition on the world, whether they return or raise.
use otwarte_dane_transportow.Common.{ℕ, suc, ◌+◌, Bool, true, false, if◌then◌else◌}
use otwarte_dane_transportow.Builds.World.{
  PlannerState, Outside, Failure, Result, ok, err, Action, pure, raise, gets, given, recovered,
  catch, ◌>>=◌, modify, raise_if, act_if, ask, file_op, other,
}

pub record Keeps (I : PlannerState → Type 0) {A : Type 0} (m : Action A) : Type 0 where
  pub apply : (w : PlannerState) → I w → I (m w).1

module _ {I : PlannerState → Type 0} where
  pub pure-Keeps : {A : Type 0} (a : A) → Keeps I (pure a)
  pure-Keeps a = record { apply = λ w v. v }

  pub raise-Keeps : {A : Type 0} (e : Failure) → Keeps I {A = A} (raise e)
  raise-Keeps e = record { apply = λ w v. v }

  pub gets-Keeps : {A : Type 0} (f : PlannerState → A) → Keeps I (gets f)
  gets-Keeps f = record { apply = λ w v. v }

  given_keeps :
      {A B : Type 0} (f : A → Action B) (r : Result A × PlannerState)
      → ((a : A) → Keeps I (f a))
      → I r.1
      → I (given f r).1
  given_keeps f (ok a, w) h v = (h a).apply w v
  given_keeps f (err e, w) h v = v

  pub bind-Keeps :
      {A B : Type 0} {m : Action A} {f : A → Action B}
      → Keeps I m
      → ((a : A) → Keeps I (f a))
      → Keeps I (m >>= f)
  bind-Keeps {m = m} {f = f} k h = record { apply = λ w v. given_keeps f (m w) h (k.apply w v) }

  handled_keeps :
      {A : Type 0} (f : Failure → Action A) (r : Result A × PlannerState)
      → ((e : Failure) → Keeps I (f e))
      → I r.1
      → I (recovered f r).1
  handled_keeps f (ok a, w) h v = v
  handled_keeps f (err e, w) h v = (h e).apply w v

  pub catch-Keeps :
      {A : Type 0} {m : Action A} {f : Failure → Action A}
      → Keeps I m
      → ((e : Failure) → Keeps I (f e))
      → Keeps I (catch m f)
  catch-Keeps {m = m} {f = f} k h = record { apply = λ w v. handled_keeps f (m w) h (k.apply w v) }

  pub raise_if-Keeps : (b : Bool) (e : Failure) → Keeps I (raise_if b e)
  raise_if-Keeps true e = raise-Keeps e
  raise_if-Keeps false e = pure-Keeps tt

  pub act_if-Keeps : (b : Bool) {m : Action (Unit {0})} → Keeps I m → Keeps I (act_if b m)
  act_if-Keeps true k = k
  act_if-Keeps false k = pure-Keeps tt

  pub if-Keeps :
      {A : Type 0} (b : Bool) {m k : Action A}
      → Keeps I m
      → Keeps I k
      → Keeps I (if b then m else k)
  if-Keeps true h g = h
  if-Keeps false h g = g

  pub modify-Keeps :
      (f : PlannerState → PlannerState) → ((w : PlannerState) → I w → I (f w)) → Keeps I (modify f)
  modify-Keeps f h = record { apply = h }

  module _ (o : Outside)
      (later : (n t : ℕ) (w : PlannerState) → I w → I (record w { tick = n; now = t })) where
    pub ask-Keeps : {A : Type 0} (f : ℕ → A) → Keeps I (ask o f)
    ask-Keeps f = record { apply = λ w v. later (suc w.tick) (w.now + o.delay w.tick) w v }

    pub file_op-Keeps :
        (f : PlannerState → PlannerState)
        → ((w : PlannerState) → I w → I (f w))
        → Keeps I (file_op o f)
    file_op-Keeps f h =
        bind-Keeps (ask-Keeps o.file_error)
          (λ failed. bind-Keeps (raise_if-Keeps failed other) (λ _. modify-Keeps f h))
