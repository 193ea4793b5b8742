-- ===== src/Review/Answers.antt =====
-- What a handler answers: a result, a `ValidationError` (400), a refusal (403), or an exception
-- that nothing catches (500).
use otwarte_dane_transportow.Common.{◌≡◌, refl}

pub data Message : Type 0 where
  not_an_integer not_between bad_content : Message

pub data Outcome {ℓ} (A : Type ℓ) : Type ℓ where
  done : A → Outcome A
  invalid : Message → Outcome A
  forbidden server_error : Outcome A

infixl 5 ◌>>=◌
abbrev pub ◌>>=◌ {ℓ κ} : {A : Type ℓ} {B : Type κ} → Outcome A → (A → Outcome B) → Outcome B
done a >>= f = f a
invalid m >>= f = invalid m
forbidden >>= f = forbidden
server_error >>= f = server_error

pub >>=-eq-done {ℓ κ} :
    {A : Type ℓ} {B : Type κ} (m : Outcome A) (f : A → Outcome B) {b : B}
    → (m >>= f) ≡ done b
    → (a : A) × (m ≡ done a) × (f a ≡ done b)
>>=-eq-done (done a) f h = (a, refl, h)
>>=-eq-done (invalid e) f h = cc
>>=-eq-done forbidden f h = cc
>>=-eq-done server_error f h = cc

pub done_injective {ℓ} : {A : Type ℓ} {a b : A} → done a ≡ done b → a ≡ b
done_injective h = cc
