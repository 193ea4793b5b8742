-- ===== src/Secrets/Field.antt =====
-- What the field stores and what it reads. `Fernet` of the package cryptography is a parameter.
use otwarte_dane_transportow.Common.{
  ℕ, not, Option, none, some, [], ◌∷◌, ◌++◌, if◌then◌else◌, Text, non_empty,
}
use otwarte_dane_transportow.Content.Checks.{starts_with}

-- A Fernet with its key, on texts: `encrypt` takes what it draws at random, and `decrypt` is none
-- where it raises `InvalidToken`.
pub record Fernet : Type 0 where
  pub encrypt : ℕ → Text → Text
  pub decrypt : Text → Option Text

-- 'fernet$'
abbrev pub prefix : Text
prefix = b'f' ∷ b'e' ∷ b'r' ∷ b'n' ∷ b'e' ∷ b't' ∷ 36 ∷ []

-- `value[len(self.PREFIX):]`
abbrev pub without_prefix : Text → Text → Text
without_prefix [] s = s
without_prefix (_ ∷ p) [] = []
without_prefix (_ ∷ p) (_ ∷ s) = without_prefix p s

abbrev pub encrypted : Option Fernet → ℕ → Text → Text
encrypted none seed value = value
encrypted (some fernet) seed value = prefix ++ fernet.encrypt seed value

-- `get_prep_value`; there is no Fernet where the settings have no key.
unfoldable pub get_prep_value : Option Fernet → ℕ → Option Text → Option Text
get_prep_value fernet seed none = none
get_prep_value fernet seed (some value) =
    if not (non_empty value)
    then some value
    else if starts_with prefix value
    then some value
    else some (encrypted fernet seed value)

abbrev pub decrypted : Option Fernet → Text → Text
decrypted none value = value
decrypted (some fernet) value = elim (fernet.decrypt (without_prefix prefix value)) [
  | none ↦ value
  | some plain ↦ plain
]

-- `_decrypt`, of `from_db_value` and `to_python`.
unfoldable pub decrypt : Option Fernet → Option Text → Option Text
decrypt fernet none = none
decrypt fernet (some value) =
    if not (non_empty value)
    then some value
    else if not (starts_with prefix value)
    then some value
    else some (decrypted fernet value)
