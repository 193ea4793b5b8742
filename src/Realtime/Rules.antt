-- ===== src/Realtime/Rules.antt =====
-- `RealtimeSubmission.clean` and `RealtimeEndpointRT.clean` of data_manager/models.py.
use otwarte_dane_transportow.Common.{
  ℕ, ◌≡◌, refl, ◌↔◌, Bool, true, false, not, ◌||◌, ◌&&◌, Option, none, some, List, [], ◌∷◌, ◌++◌,
  ◌==◌, if◌then◌else◌, arith,
}
use otwarte_dane_transportow.History.{
  Protocol, gtfs_rt, siri, gbfs, EndpointType, trip_update, vehicle_position, service_alert, sx, sm,
  vm, et, gm, gbfs_main, gbfs_versions, system_information, vehicle_types, station_information,
  station_status, free_bike_status, system_hours, system_alerts,
}
use otwarte_dane_transportow.Scheduler.EntityTypes.{rank, has_type}
use otwarte_dane_transportow.Content.Checks.{DataType, gtfs, netex}
use otwarte_dane_transportow.Realtime.Verify.{needs_static}

pub data Problem : Type 0 where
  static_required static_forbidden protocol_not_allowed : Problem
  other_organization static_not_published : Problem

-- What is read of the linked static submission.
pub record LinkedStatic : Type 0 where
  pub data_type : DataType
  pub transport_organization : ℕ
  pub current_stage : ℕ

pub record Draft : Type 0 where
  pub protocol : Protocol
  pub static_submission : Option LinkedStatic
  pub transport_organization : Option ℕ

-- `allowed_protocols_for_static_data_type`, as membership.
unfoldable pub protocol_allowed : DataType → Protocol → Bool
protocol_allowed gtfs gtfs_rt = true
protocol_allowed netex siri = true
protocol_allowed _ _ = false

abbrev pub report_if : Bool → Problem → List Problem
report_if b p = if b then p ∷ [] else []

abbrev pub other_than : Option ℕ → ℕ → Bool
other_than none id = false
other_than (some own) id = not (id == own)

abbrev pub is_gbfs : Protocol → Bool
is_gbfs gbfs = true
is_gbfs _ = false

-- The errors, in the order of the code.
unfoldable pub clean_submission : Draft → List Problem
unfolding protocol_allowed
clean_submission d = elim d.static_submission [
  | none ↦ report_if (needs_static d.protocol) static_required
  | some s ↦
      (if is_gbfs d.protocol
        then static_forbidden ∷ []
        else report_if (not (protocol_allowed s.data_type d.protocol)) protocol_not_allowed)
      ++ report_if (other_than d.transport_organization s.transport_organization) other_organization
      ++ report_if (needs_static d.protocol && not (s.current_stage == 4)) static_not_published
]

-- A linked submission that a realtime feed may depend on.
pub record IsFitting (q : Protocol) (organization : Option ℕ) (s : LinkedStatic) : Type 0 where
  pub allowed : protocol_allowed s.data_type q ≡ true
  pub same_organization : other_than organization s.transport_organization ≡ false
  pub published : s.current_stage ≡ 4

abbrev pub IsLinked : Protocol → Option ℕ → Option LinkedStatic → Type 0
IsLinked gbfs o none = Unit
IsLinked gbfs o (some s) = ⊥
IsLinked q o none = ⊥
IsLinked q o (some s) = IsFitting q o s

none_reported :
    (a b : Bool) (n : ℕ)
    → (report_if (not a) protocol_not_allowed
          ++ report_if b other_organization
          ++ report_if (not (n == 4)) static_not_published
        ≡ [])
      ↔ ((a ≡ true) × (b ≡ false) × (n ≡ 4))
none_reported true false n = ground arith
none_reported true true n = ground arith
none_reported false b n = ground arith

IsFitting-iff :
    (q : Protocol) (o : Option ℕ) (s : LinkedStatic)
    → (report_if (not (protocol_allowed s.data_type q)) protocol_not_allowed
          ++ report_if (other_than o s.transport_organization) other_organization
          ++ report_if (not (s.current_stage == 4)) static_not_published
        ≡ [])
      ↔ IsFitting q o s
IsFitting-iff q o s =
    let k =
      none_reported (protocol_allowed s.data_type q) (other_than o s.transport_organization)
        s.current_stage in
    (
      λ e. record { allowed = (k.0 e).0; same_organization = (k.0 e).1; published = (k.0 e).2 },
      λ f. k.1 (f.allowed, f.same_organization, f.published),
    )

-- A realtime submission is valid exactly when a GBFS feed has no static submission, and a GTFS-RT
-- or SIRI feed has one of the matching type, of its own organisation, and published.
pub clean_submission_iff :
    (d : Draft)
    → (clean_submission d ≡ []) ↔ IsLinked d.protocol d.transport_organization d.static_submission
unfolding clean_submission
clean_submission_iff d = go d.protocol d.static_submission
  where
    go :
        (q : Protocol) (s : Option LinkedStatic)
        → (clean_submission (record d { protocol = q; static_submission = s }) ≡ [])
          ↔ IsLinked q d.transport_organization s
    go gbfs none = ground arith
    go gtfs_rt none = ground arith
    go siri none = ground arith
    go gbfs (some s) = ground arith
    go gtfs_rt (some s) = IsFitting-iff gtfs_rt d.transport_organization s
    go siri (some s) = IsFitting-iff siri d.transport_organization s

unfoldable pub allowed_endpoint_types : Protocol → List EndpointType
allowed_endpoint_types gtfs_rt = trip_update ∷ vehicle_position ∷ service_alert ∷ []
allowed_endpoint_types siri = sx ∷ sm ∷ vm ∷ et ∷ gm ∷ []
allowed_endpoint_types gbfs =
    gbfs_main ∷ gbfs_versions ∷ system_information ∷ vehicle_types ∷ station_information
    ∷ station_status ∷ free_bike_status ∷ system_hours ∷ system_alerts ∷ []

-- `RealtimeEndpointRT.clean`: `hide_original` afterwards, or none for a `ValidationError`.
unfoldable pub clean_endpoint : Protocol → EndpointType → Bool → Bool → Option Bool
unfolding allowed_endpoint_types
clean_endpoint q t has_auth hide_original =
    if has_type t (allowed_endpoint_types q) then some (has_auth || hide_original) else none

-- An endpoint is valid under one protocol at most, and one with credentials is then hidden.
pub clean_endpoint_lem :
    (q r : Protocol) (t : EndpointType) (has_auth hide_original a b : Bool)
    → clean_endpoint q t has_auth hide_original ≡ some a
    → clean_endpoint r t has_auth hide_original ≡ some b
    → (q ≡ r) × (has_auth ≡ true → a ≡ true)
unfolding clean_endpoint rank
clean_endpoint_lem q r t has_auth hide_original a b ha hb = (same q r t ha hb, ground arith)
  where
    same :
        (q r : Protocol) (t : EndpointType)
        → clean_endpoint q t has_auth hide_original ≡ some a
        → clean_endpoint r t has_auth hide_original ≡ some b
        → q ≡ r
    same gtfs_rt gtfs_rt t h k = refl
    same siri siri t h k = refl
    same gbfs gbfs t h k = refl
    same gtfs_rt siri t h k = absurd (ground arith)
    same gtfs_rt gbfs t h k = absurd (ground arith)
    same siri gtfs_rt t h k = absurd (ground arith)
    same siri gbfs t h k = absurd (ground arith)
    same gbfs gtfs_rt t h k = absurd (ground arith)
    same gbfs siri t h k = absurd (ground arith)
