-- ===== src/Address/Client.antt =====
-- `get_client_ip`. Texts of addresses and networks are read by the module ipaddress, a parameter.
use mathlib.Core.List.{reverse}
use otwarte_dane_transportow.Common.{
  ℕ, suc, Bool, true, false, not, ◌&&◌, ◌||◌, Option, none, some, List, [], ◌∷◌, ◌==◌,
  if◌then◌else◌, Text, non_empty, any, contains,
}
use otwarte_dane_transportow.Review.StageValue.{strip}

-- `ip_address`, `ip_network` with `strict=False` (none is a `ValueError`), `in`, and `str`.
pub record Ipaddress : Type 1 where
  pub Ip : Type 0
  pub Network : Type 0
  pub ip_address : Text → Option Ip
  pub ip_network : Text → Option Network
  pub is_in : Ip → Network → Bool
  pub text_of : Ip → Text

abbrev pub comma : ℕ
comma = 44

-- A character in front of the parts: a comma ends an empty part.
abbrev pub cut : Bool → ℕ → Text × List Text → Text × List Text
cut true c (part, parts) = ([], part ∷ parts)
cut false c (part, parts) = (c ∷ part, parts)

-- `xff.split(',')`: the first part and the others.
abbrev pub split_first : Text → Text × List Text
split_first [] = ([], [])
split_first (c ∷ s) = cut (c == comma) c (split_first s)

abbrev pub split : Text → List Text
split s = let (part, parts) = split_first s in part ∷ parts

-- The text before a character, which is there.
abbrev pub before : ℕ → Text → Text
before a [] = []
before a (c ∷ s) = let rest = before a s in if c == a then [] else c ∷ rest

abbrev pub count : ℕ → Text → ℕ
count a [] = 0
count a (c ∷ s) = let n = count a s in if c == a then suc n else n

-- The address within a hop: in brackets, or without a port.
abbrev pub host_of : Text → Text
host_of [] = []
host_of (c ∷ s) =
    if (c == 91) && contains 93 s
    then before 93 s
    else if count b':' (c ∷ s) == 1
    then before b':' (c ∷ s)
    else c ∷ s

module _ (lib : Ipaddress) where
  -- `_trusted_networks`
  abbrev pub trusted_networks : List Text → List lib.Network
  trusted_networks [] = []
  trusted_networks (cidr ∷ cidrs) =
      let rest = trusted_networks cidrs in
      elim (lib.ip_network cidr) [ none ↦ rest | some network ↦ network ∷ rest ]

  -- `_parse_hop`
  unfoldable pub parse_hop : Text → Option lib.Ip
  unfolding strip
  parse_hop hop = lib.ip_address (host_of (strip hop))

  -- `_is_trusted`
  abbrev pub is_trusted : lib.Ip → List lib.Network → Bool
  is_trusted ip networks = any (lib.is_in ip) networks

  -- One hop of the walk from the right: where the client was found, or where the walk goes on.
  abbrev pub walk : List lib.Network → lib.Ip → List Text → lib.Ip
  walk networks client [] = client
  walk networks client (hop ∷ hops) = elim (parse_hop hop) [
    | none ↦ client
    | some ip ↦ (let rest = walk networks ip hops in if is_trusted ip networks then rest else ip)
  ]

  -- `get_client_ip`, of the socket's peer and the header, each missing or there.
  unfoldable pub get_client_ip : List Text → Option Text → Option Text → Option Text
  get_client_ip cidrs none xff = none
  get_client_ip cidrs (some remote) none = some remote
  get_client_ip cidrs (some remote) (some xff) =
      if not (non_empty remote) || not (non_empty xff)
      then some remote
      else elim (lib.ip_address remote) [
        | none ↦ some remote
        | some client ↦
            (let networks = trusted_networks cidrs in
              if is_trusted client networks
              then some (lib.text_of (walk networks client (reverse (split xff))))
              else some remote)
      ]
