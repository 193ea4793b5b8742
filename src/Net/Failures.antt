-- ===== src/Net/Failures.antt =====
-- The exceptions of a fetch and the functions that may raise one, for data_manager/net_security.py,
-- data_manager/validators.py and their callers.
use otwarte_dane_transportow.Common.{ℕ, ◌≡◌, refl, Bool, true, false, Option, if◌then◌else◌}

-- `ssl_error true` is a failed certificate verification; `http_error` has the status of its
-- response, when it holds one.
pub data Exception : Type 0 where
  outbound_url_blocked : Exception
  response_too_large : ℕ → Exception
  timeout connect_timeout connection_error : Exception
  ssl_error : Bool → Exception
  http_error : Option ℕ → Exception
  empty_feed_content invalid_feed_content value_error other_exception : Exception

-- A call that raises, or returns a value.
pub data Attempt {ℓ} (A : Type ℓ) : Type ℓ where
  raised : Exception → Attempt A
  returned : A → Attempt A

-- What follows a call is skipped when the call raises.
module _ {ℓ κ} {A : Type ℓ} {B : Type κ} where
  infixl 5 ◌>>=◌
  abbrev pub ◌>>=◌ : Attempt A → (A → Attempt B) → Attempt B
  raised e >>= next = raised e
  returned value >>= next = next value

  pub >>=-eq-returned :
      (call : Attempt A) (next : A → Attempt B) {result : B}
      → call >>= next ≡ returned result
      → (value : A) × (call ≡ returned value) × (next value ≡ returned result)
  >>=-eq-returned (raised e) next h = cc
  >>=-eq-returned (returned value) next h = (value, refl, h)

pub ok_injective {ℓ} : {A : Type ℓ} {a b : A} → returned a ≡ returned b → a ≡ b
ok_injective h = cc

pub guard-eq-returned {ℓ} :
    {A : Type ℓ} (b : Bool) (e : Exception) (m : Attempt A) {a : A}
    → (if b then raised e else m) ≡ returned a
    → (b ≡ false) × (m ≡ returned a)
guard-eq-returned true e m h = cc
guard-eq-returned false e m h = (refl, h)
