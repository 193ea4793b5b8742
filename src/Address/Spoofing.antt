-- ===== src/Address/Spoofing.antt =====
-- What the client sends in front of a header does not matter.
use mathlib.Core.List.{reverse, reverse-append}
use otwarte_dane_transportow.Common.{
  ℕ, ◌≡◌, refl, sym, ap, ◌∙◌, Bool, true, false, not, ◌||◌, Option, none, some, List, [], ◌∷◌, ◌++◌,
  ◌==◌, Text, non_empty, Option-cases, Bool-cases, inl, inr,
}
use otwarte_dane_transportow.Address.Client.{
  Ipaddress, comma, cut, split_first, split, parse_hop, is_trusted, walk, get_client_ip,
  trusted_networks,
}

cut-append :
    (b : Bool) (c : ℕ) (part : Text) (parts more : List Text)
    → cut b c (part, parts ++ more) ≡ ((cut b c (part, parts)).0, (cut b c (part, parts)).1 ++ more)
cut-append true c part parts more = refl
cut-append false c part parts more = refl

-- A comma splits a header into the parts on its two sides.
split_first-comma :
    (s t : Text) → split_first (s ++ comma ∷ t) ≡ ((split_first s).0, (split_first s).1 ++ split t)
split_first-comma [] t = refl
split_first-comma (c ∷ s) t =
    ap (cut (c == comma) c) (split_first-comma s t)
    ∙ cut-append (c == comma) c ((split_first s).0) ((split_first s).1) (split t)

split-comma : (s t : Text) → split (s ++ comma ∷ t) ≡ split s ++ split t
split-comma s t = ap (λ (r : Text × List Text). r.0 ∷ r.1) (split_first-comma s t)

non_empty-comma : (s t : Text) → non_empty (s ++ comma ∷ t) ≡ true
non_empty-comma [] t = refl
non_empty-comma (c ∷ s) t = refl

module _ (lib : Ipaddress) where
  -- The walk ends within these hops: one of them cannot be read, or is not one of our proxies.
  abbrev pub ends : List lib.Network → List Text → Bool
  ends networks [] = false
  ends networks (hop ∷ hops) = elim (parse_hop lib hop) [
    | none ↦ true
    | some ip ↦ not (is_trusted lib ip networks) || ends networks hops
  ]

  ends_after :
      (networks : List lib.Network) (hop : Text) (hops : List Text) (ip : lib.Ip)
      → parse_hop lib hop ≡ some ip
      → is_trusted lib ip networks ≡ true
      → ends networks (hop ∷ hops) ≡ ends networks hops
  ends_after networks hop hops ip q b = rw (ends, q, b) refl

  walk-ends :
      (networks : List lib.Network) (client : lib.Ip) (hops more : List Text)
      → ends networks hops ≡ true
      → walk lib networks client (hops ++ more) ≡ walk lib networks client hops
  walk-ends networks client [] more h = cc
  walk-ends networks client (hop ∷ hops) more h = elim (Option-cases (parse_hop lib hop)) [
    | inl q ↦ rw (walk, q) refl
    | inr (ip, q) ↦ elim (Bool-cases (is_trusted lib ip networks)) [
      | inl b ↦
          rw (walk, q, b)
            (walk-ends networks ip hops more (sym (ends_after networks hop hops ip q b) ∙ h))
      | inr b ↦ rw (walk, q, b) refl
    ]
  ]

  walk-spoofed :
      (networks : List lib.Network) (client : lib.Ip) (spoof appended : Text)
      → ends networks (reverse (split appended)) ≡ true
      → walk lib networks client (reverse (split (spoof ++ comma ∷ appended)))
        ≡ walk lib networks client (reverse (split appended))
  walk-spoofed networks client spoof appended h =
      ap (walk lib networks client)
        (ap reverse (split-comma spoof appended) ∙ reverse-append (split spoof) (split appended))
      ∙ walk-ends networks client (reverse (split appended)) (reverse (split spoof)) h

  -- If a hop that the proxies appended cannot be read, or is not one of them, the answer does not
  -- depend on what stands in front of the hops that they appended.
  pub get_client_ip-unspoofed :
      (cidrs : List Text) (remote : Option Text) (spoof appended : Text)
      → non_empty appended ≡ true
      → ends (trusted_networks lib cidrs) (reverse (split appended)) ≡ true
      → get_client_ip lib cidrs remote (some (spoof ++ comma ∷ appended))
        ≡ get_client_ip lib cidrs remote (some appended)
  unfolding get_client_ip
  get_client_ip-unspoofed cidrs none spoof appended h e = refl
  get_client_ip-unspoofed cidrs (some remote) spoof appended h e =
      elim (Option-cases (lib.ip_address remote)) [
        | inl q ↦ rw (q, h, non_empty-comma spoof appended) refl
        | inr (client, q) ↦
            rw
              (
                q,
                h,
                non_empty-comma spoof appended,
                walk-spoofed (trusted_networks lib cidrs) client spoof appended e,
              )
              refl
      ]
