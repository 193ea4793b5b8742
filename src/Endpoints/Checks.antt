-- ===== src/Endpoints/Checks.antt =====
-- `RealtimeSubmissionWriteSerializer.validate`.
use otwarte_dane_transportow.Common.{
  ℕ, Bool, true, false, not, ◌&&◌, Option, none, some, List, [], ◌∷◌, if◌then◌else◌, ◌==◌, length,
  Text, text_eq, non_empty,
}
use otwarte_dane_transportow.History.{Protocol, gtfs_rt, siri, gbfs, EndpointType}
use otwarte_dane_transportow.Scheduler.EntityTypes.{has_type}
use otwarte_dane_transportow.Realtime.Rules.{protocol_allowed, allowed_endpoint_types}
use otwarte_dane_transportow.Endpoints.Rows.{
  EndpointRt, StaticRef, RealtimeInstance, EndpointData, RealtimeData,
}
use otwarte_dane_transportow.Endpoints.Merging.{by_type}

-- What the errors are about. `key_error` is Python's own exception.
pub data Fault : Type 0 where
  name_changed organization_changed static_changed protocol_changed : Fault
  no_endpoints endpoints_changed unknown_type field_changed credentials_changed : Fault
  static_forbidden static_required other_organization protocol_not_allowed : Fault
  static_not_published invalid_type duplicate_type invalid_endpoint key_error : Fault

pub data Checked (A : Type 0) : Type 0 where
  passed : A → Checked A
  fault : Fault → Checked A

infixl 5 ◌>>=◌ ◌>>◌
abbrev pub ◌>>=◌ : {A B : Type 0} → Checked A → (A → Checked B) → Checked B
passed a >>= f = f a
fault e >>= f = fault e

abbrev pub ◌>>◌ : {B : Type 0} → Checked (Unit {0}) → Checked B → Checked B
m >> k = m >>= λ _. k

abbrev pub fault_if : Bool → Fault → Checked (Unit {0})
fault_if true e = fault e
fault_if false e = passed tt

abbrev pub changes_text : Option Text → Text → Bool
changes_text none old = false
changes_text (some new) old = not (text_eq old new)

abbrev pub changes_id : Option ℕ → ℕ → Bool
changes_id none old = false
changes_id (some new) old = not (new == old)

abbrev pub same_id : Option StaticRef → Option StaticRef → Bool
same_id none none = true
same_id (some a) (some b) = a.id == b.id
same_id _ _ = false

abbrev pub changes_static : Option (Option StaticRef) → Option StaticRef → Bool
changes_static none old = false
changes_static (some new) old = not (same_id new old)

abbrev pub same_protocol : Protocol → Protocol → Bool
same_protocol gtfs_rt gtfs_rt = true
same_protocol siri siri = true
same_protocol gbfs gbfs = true
same_protocol _ _ = false

abbrev pub changes_protocol : Option Protocol → Protocol → Bool
changes_protocol none old = false
changes_protocol (some new) old = not (same_protocol new old)

-- The first checks of a restricted edit.
unfoldable pub check_restricted : RealtimeData → RealtimeInstance → Checked (Unit {0})
check_restricted d inst = do
  fault_if (changes_text d.name inst.name) name_changed
  fault_if (changes_id d.transport_organization inst.transport_organization) organization_changed
  fault_if (changes_static d.static_submission inst.static_submission) static_changed
  fault_if (changes_protocol d.protocol inst.protocol) protocol_changed

abbrev pub is_value : Option Text → Text → Bool
is_value none old = false
is_value (some new) old = text_eq new old

abbrev pub is_flag : Option Bool → Bool → Bool
is_flag none old = false
is_flag (some true) old = old
is_flag (some false) old = not old

-- `value or None` on both sides.
abbrev pub or_null : Option Text → Option Text
or_null none = none
or_null (some t) = if non_empty t then some t else none

abbrev pub same_text : Option Text → Option Text → Bool
same_text none none = true
same_text (some a) (some b) = text_eq a b
same_text _ _ = false

abbrev pub keeps_fields : EndpointData → EndpointRt → Bool
keeps_fields ep ex =
    text_eq ep.url ex.url
    && is_value ep.auth_type ex.auth_type
    && is_flag ep.hide_original ex.hide_original
    && is_flag ep.is_original ex.is_original

abbrev pub check_found : EndpointData → Option EndpointRt → Checked (Unit {0})
check_found ep none = fault unknown_type
check_found ep (some ex) = do
  fault_if (not (keeps_fields ep ex)) field_changed
  fault_if (not (same_text (or_null ep.auth_value) (or_null ex.auth_value))) credentials_changed

unfoldable pub check_each : List EndpointRt → List EndpointData → Checked (Unit {0})
check_each rows [] = passed tt
check_each rows (ep ∷ eps) = check_found ep (by_type ep.endpoint_type rows) >> check_each rows eps

abbrev pub check_endpoints : List EndpointRt → Option (List EndpointData) → Checked (Unit {0})
check_endpoints rows none = passed tt
check_endpoints rows (some eps) = do
  fault_if (not (length eps == length rows)) endpoints_changed
  check_each rows eps

-- A list of endpoints that is sent has one.
abbrev pub check_present : Option (List EndpointData) → Bool → Checked (Unit {0})
check_present none creates = fault_if creates no_endpoints
check_present (some []) creates = fault no_endpoints
check_present (some (ep ∷ eps)) creates = passed tt

abbrev pub check_linked : (ℕ → Bool) → Protocol → Option ℕ → Option StaticRef → Checked (Unit {0})
check_linked completed protocol org none = fault static_required
check_linked completed protocol org (some ss) = do
  fault_if (changes_id org ss.transport_organization) other_organization
  fault_if (not (protocol_allowed ss.data_type protocol)) protocol_not_allowed
  fault_if (not (completed ss.id)) static_not_published

abbrev pub check_static : (ℕ → Bool) → Protocol → Option ℕ → Option StaticRef → Checked (Unit {0})
check_static completed gbfs org none = passed tt
check_static completed gbfs org (some ss) = fault static_forbidden
check_static completed gtfs_rt org ss = check_linked completed gtfs_rt org ss
check_static completed siri org ss = check_linked completed siri org ss

unfoldable pub check_types : Protocol → List EndpointType → List EndpointData → Checked (Unit {0})
check_types protocol seen [] = passed tt
check_types protocol seen (ep ∷ eps) = do
  fault_if (not (has_type ep.endpoint_type (allowed_endpoint_types protocol))) invalid_type
  fault_if (has_type ep.endpoint_type seen) duplicate_type
  check_types protocol (ep.endpoint_type ∷ seen) eps

abbrev pub or_list : Option (List EndpointData) → List EndpointData
or_list none = []
or_list (some eps) = eps

module _ {A : Type 0} where
  abbrev pub or_old : Option A → A → A
  or_old none old = old
  or_old (some new) old = new

-- `validate` of an update.
unfoldable pub validate_update :
    (ℕ → Bool) → Bool → RealtimeData → RealtimeInstance → Checked (Unit {0})
validate_update completed restricted d inst = do
  (if restricted then check_restricted d inst else passed tt)
  check_present d.endpoints false
  (if restricted then check_endpoints inst.endpoints d.endpoints else passed tt)
  check_static completed (or_old d.protocol inst.protocol)
      (some (or_old d.transport_organization inst.transport_organization))
      (or_old d.static_submission inst.static_submission)
  check_types (or_old d.protocol inst.protocol) [] (or_list d.endpoints)
