-- ===== src/Address/Examples.antt =====
-- Addresses of one character, and the theorem at them.
use otwarte_dane_transportow.Common.{ℕ, ◌≡◌, refl, Option, none, some, List, [], ◌∷◌, ◌==◌, Text}
use otwarte_dane_transportow.Review.StageValue.{strip, lstrip, rstrip, is_space}
use otwarte_dane_transportow.Address.Client.{Ipaddress, comma, parse_hop, get_client_ip}
use otwarte_dane_transportow.Address.Spoofing.{get_client_ip-unspoofed}

abbrev one_character : Text → Option ℕ
one_character (c ∷ []) = some c
one_character _ = none

abbrev characters : Ipaddress
characters = record {
  Ip = ℕ;
  Network = ℕ;
  ip_address = one_character;
  ip_network = one_character;
  is_in = λ ip network. ip == network;
  text_of = λ ip. ip ∷ [];
}

-- The proxy p received the request from the client c.
abbrev appended : Text
appended = b'c' ∷ (comma ∷ (b'p' ∷ []))

abbrev proxies : List Text
proxies = (b'p' ∷ []) ∷ []

client_found :
    get_client_ip characters proxies (some (b'p' ∷ [])) (some appended) ≡ some (b'c' ∷ [])
unfolding get_client_ip parse_hop strip lstrip rstrip is_space
client_found = refl

get_client_ip-unspoofed_example :
    get_client_ip characters proxies
      (some (b'p' ∷ []))
      (some (b'x' ∷ (comma ∷ (b'c' ∷ (comma ∷ (b'p' ∷ []))))))
    ≡ get_client_ip characters proxies (some (b'p' ∷ [])) (some appended)
unfolding parse_hop strip lstrip rstrip is_space
get_client_ip-unspoofed_example =
    get_client_ip-unspoofed characters proxies (some (b'p' ∷ [])) (b'x' ∷ []) appended refl refl
