-- ===== src/Scheduler/EntityTypes.antt =====
-- `RealtimeEndpointRT.record_entity_types`: sets of endpoint types as lists.
use otwarte_dane_transportow.Common.{
  ℕ, Bool, true, false, ◌||◌, List, [], ◌∷◌, ◌==◌, ltb, all, if◌then◌else◌, ◌≡◌, refl, inl, inr,
  Bool-cases, arith,
}
use otwarte_dane_transportow.History.{
  EndpointType, trip_update, vehicle_position, service_alert, sx, sm, vm, et, gm, gbfs_main,
  gbfs_versions, system_information, vehicle_types, station_information, station_status,
  free_bike_status, system_hours, system_alerts,
}

-- The place of a type in the order of the texts, from 'et' to 'vm'.
unfoldable pub rank : EndpointType → ℕ
rank et = 0
rank free_bike_status = 1
rank gbfs_main = 2
rank gbfs_versions = 3
rank gm = 4
rank service_alert = 5
rank sm = 6
rank station_information = 7
rank station_status = 8
rank sx = 9
rank system_alerts = 10
rank system_hours = 11
rank system_information = 12
rank trip_update = 13
rank vehicle_position = 14
rank vehicle_types = 15
rank vm = 16

abbrev pub has_type : EndpointType → List EndpointType → Bool
has_type t [] = false
has_type t (x ∷ xs) = (rank x == rank t) || has_type t xs

-- `found <= set(stored)`
abbrev pub is_subset : List EndpointType → List EndpointType → Bool
is_subset found stored = all (λ t. has_type t stored) found

-- One more type in a sorted list without repetitions.
unfoldable pub insert_type : EndpointType → List EndpointType → List EndpointType
insert_type t [] = t ∷ []
insert_type t (x ∷ xs) =
    let rest = insert_type t xs in
    if rank x == rank t then x ∷ xs else if ltb (rank t) (rank x) then t ∷ x ∷ xs else x ∷ rest

-- `sorted(set(types))`
unfoldable pub sorted_set : List EndpointType → List EndpointType
unfolding insert_type
sorted_set [] = []
sorted_set (t ∷ ts) = insert_type t (sorted_set ts)

-- `sorted(set(stored) | found)`
unfoldable pub merged_types : List EndpointType → List EndpointType → List EndpointType
unfolding insert_type sorted_set
merged_types [] stored = sorted_set stored
merged_types (t ∷ found) stored = insert_type t (merged_types found stored)

-- The list of the object and that of its row.
pub record Types : Type 0 where
  pub held : List EndpointType
  pub stored : List EndpointType

unfoldable pub record_entity_types : List EndpointType → Types → Types
unfolding merged_types
record_entity_types found t =
    let merged = merged_types found t.stored in
    if is_subset found t.held then t else record { held = merged; stored = merged }

has_type-insert :
    (u t : EndpointType) (ts : List EndpointType)
    → has_type u (insert_type t ts) ≡ ((rank t == rank u) || has_type u ts)
unfolding insert_type
has_type-insert u t [] = refl
has_type-insert u t (x ∷ xs) = ground (arith, has_type-insert u t xs)

has_type-sorted :
    (u : EndpointType) (ts : List EndpointType) → has_type u (sorted_set ts) ≡ has_type u ts
unfolding sorted_set
has_type-sorted u [] = refl
has_type-sorted u (t ∷ ts) =
    ground (arith, has_type-insert u t (sorted_set ts), has_type-sorted u ts)

has_type-merged :
    (u : EndpointType) (found stored : List EndpointType)
    → has_type u (merged_types found stored) ≡ (has_type u found || has_type u stored)
unfolding merged_types
has_type-merged u [] stored = has_type-sorted u stored
has_type-merged u (t ∷ found) stored =
    ground (arith, has_type-insert u t (merged_types found stored), has_type-merged u found stored)

has_type-rank :
    (t u : EndpointType) (ts : List EndpointType) → rank t ≡ rank u → has_type t ts ≡ has_type u ts
has_type-rank t u [] e = refl
has_type-rank t u (x ∷ xs) e = ground (arith, has_type-rank t u xs e)

has_type-subset :
    (u : EndpointType) (found stored : List EndpointType)
    → is_subset found stored ≡ true
    → has_type u found ≡ true
    → has_type u stored ≡ true
has_type-subset u [] stored h k = absurd (ground arith)
has_type-subset u (t ∷ found) stored h k = elim (Bool-cases (rank t == rank u)) [
  | inl e ↦ ground (arith, has_type-rank t u stored)
  | inr e ↦ has_type-subset u found stored (ground arith) (ground arith)
]

-- No type is ever removed from the row or lost by the object, and where the row holds what the
-- object holds, every type that was found is in the row afterwards; a type comes from one of the
-- three.
pub record_entity_types_lem :
    (u : EndpointType) (found : List EndpointType) (t : Types)
    → let t' = record_entity_types found t in
      (has_type u t.stored ≡ true → has_type u t'.stored ≡ true)
      × (has_type u found ≡ true → has_type u t'.held ≡ true)
      × (is_subset t.held t.stored ≡ true → has_type u found ≡ true → has_type u t'.stored ≡ true)
      × (has_type u t'.stored ≡ true → (has_type u found || has_type u t.stored) ≡ true)
unfolding record_entity_types
record_entity_types_lem u found t = ground (
  arith,
  has_type-merged u found t.stored,
  has_type-subset u found t.held,
  has_type-subset u t.held t.stored,
)
