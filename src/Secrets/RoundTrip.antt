-- ===== src/Secrets/RoundTrip.antt =====
-- What is stored is read back.
use otwarte_dane_transportow.Common.{
  ℕ, ◌≡◌, refl, ap, ◌∙◌, true, false, Option, none, some, [], ◌∷◌, ◌++◌, Text, Bool-cases, inl, inr,
  arith,
}
use otwarte_dane_transportow.Content.Checks.{starts_with}
use otwarte_dane_transportow.Secrets.Field.{
  Fernet, prefix, without_prefix, encrypted, get_prep_value, decrypted, decrypt,
}

-- A token is read back, as the package promises.
abbrev pub IsFernet : Fernet → Type 0
IsFernet f = (seed : ℕ) (value : Text) → f.decrypt (f.encrypt seed value) ≡ some value

abbrev pub AllFernet : Option Fernet → Type 0
AllFernet none = Unit
AllFernet (some f) = IsFernet f

-- The text is no token of the field: without its prefix it does not decrypt.
abbrev pub IsForeign : Option Fernet → Option Text → Type 0
IsForeign _ none = Unit
IsForeign none (some value) = Unit
IsForeign (some f) (some value) =
    starts_with prefix value ≡ true → f.decrypt (without_prefix prefix value) ≡ none

starts_with-append : (p s : Text) → starts_with p (p ++ s) ≡ true
unfolding starts_with
starts_with-append [] s = refl
starts_with-append (a ∷ p) s = ground (arith, starts_with-append p s)

without_prefix-append : (p s : Text) → without_prefix p (p ++ s) ≡ s
without_prefix-append [] s = refl
without_prefix-append (a ∷ p) s = without_prefix-append p s

decrypt-plain :
    (fernet : Option Fernet) (value : Text)
    → starts_with prefix value ≡ false
    → decrypt fernet (some value) ≡ some value
unfolding decrypt
decrypt-plain fernet [] h = refl
decrypt-plain fernet (c ∷ s) h = rw h refl

decrypt-prefixed :
    (fernet : Option Fernet) (c : ℕ) (s : Text)
    → starts_with prefix (c ∷ s) ≡ true
    → decrypt fernet (some (c ∷ s)) ≡ some (decrypted fernet (c ∷ s))
unfolding decrypt
decrypt-prefixed fernet c s h = rw h refl

foreign-decrypted :
    (fernet : Option Fernet) (value : Text)
    → IsForeign fernet (some value)
    → starts_with prefix value ≡ true
    → decrypted fernet value ≡ value
foreign-decrypted none value foreign h = refl
foreign-decrypted (some f) value foreign h = rw (foreign h) refl

decrypt-encrypted :
    (fernet : Option Fernet) (seed : ℕ) (value : Text)
    → AllFernet fernet
    → starts_with prefix value ≡ false
    → decrypt fernet (some (encrypted fernet seed value)) ≡ some value
unfolding decrypt starts_with
decrypt-encrypted none seed value good h = decrypt-plain none value h
decrypt-encrypted (some f) seed value good h = rw (good seed value) refl

-- What the field stores is read back, with a key or without one, whether the value is missing,
-- empty or a text, if Fernet reads its own tokens and the text is not itself a token of the field.
pub decrypt-get_prep_value :
    (fernet : Option Fernet) (seed : ℕ) (value : Option Text)
    → AllFernet fernet
    → IsForeign fernet value
    → decrypt fernet (get_prep_value fernet seed value) ≡ value
unfolding decrypt get_prep_value
decrypt-get_prep_value fernet seed none good foreign = refl
decrypt-get_prep_value fernet seed (some []) good foreign = refl
decrypt-get_prep_value fernet seed (some (c ∷ s)) good foreign =
    elim (Bool-cases (starts_with prefix (c ∷ s))) [
      | inl h ↦
          rw h
            (decrypt-prefixed fernet c s h ∙ ap some (foreign-decrypted fernet (c ∷ s) foreign h))
      | inr h ↦ rw h (decrypt-encrypted fernet seed (c ∷ s) good h)
    ]

-- A column that is read raw and stored again is left as it is, and with a key no text but the
-- empty one is stored without the prefix of a token.
pub get_prep_value-stored :
    (f : Fernet) (seed seed' : ℕ) (c : ℕ) (s : Text)
    → (stored : Text) × (get_prep_value (some f) seed (some (c ∷ s)) ≡ some stored)
      × (starts_with prefix stored ≡ true)
      × (get_prep_value (some f) seed' (some stored) ≡ some stored)
unfolding get_prep_value starts_with
get_prep_value-stored f seed seed' c s = elim (Bool-cases (starts_with prefix (c ∷ s))) [
  | inl h ↦ (c ∷ s, rw h refl, h, rw h refl)
  | inr h ↦ (encrypted (some f) seed (c ∷ s), rw h refl, refl, refl)
]
