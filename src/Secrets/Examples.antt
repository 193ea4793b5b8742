-- ===== src/Secrets/Examples.antt =====
-- A cipher that marks its tokens, and the theorems at it.
use otwarte_dane_transportow.Common.{
  ◌≡◌, refl, none, some, Option, ◌==◌, if◌then◌else◌, [], ◌∷◌, Text,
}
use otwarte_dane_transportow.Content.Checks.{starts_with}
use otwarte_dane_transportow.Secrets.Field.{Fernet, get_prep_value, decrypt}
use otwarte_dane_transportow.Secrets.RoundTrip.{IsFernet, decrypt-get_prep_value}

abbrev marked : Text → Option Text
marked [] = none
marked (c ∷ s) = if c == 1 then some s else none

abbrev cipher : Fernet
cipher = record { encrypt = λ seed s. 1 ∷ s; decrypt = marked }

cipher-IsFernet : IsFernet cipher
cipher-IsFernet seed value = refl

abbrev secret : Text
secret = b'k' ∷ b'e' ∷ b'y' ∷ []

decrypt-get_prep_value_example :
    decrypt (some cipher) (get_prep_value (some cipher) 7 (some secret)) ≡ some secret
unfolding starts_with
decrypt-get_prep_value_example =
    decrypt-get_prep_value (some cipher) 7 (some secret) cipher-IsFernet (λ h. cc)
