-- ===== src/History/Reasons.antt =====
-- data_manager/rejection_reasons.py: the codes of automatic rejections, each with its details, and
-- the choices that the details name.
use otwarte_dane_transportow.Common.{ℕ}

-- `RealtimeSubmission.PROTOCOL_CHOICES`
pub data Protocol : Type 0 where
  gtfs_rt siri gbfs : Protocol

-- `RealtimeEndpointRT.RT_ENDPOINT_TYPE_CHOICES`; `gbfs_main` is its 'gbfs'.
pub data EndpointType : Type 0 where
  trip_update vehicle_position service_alert : EndpointType
  sx sm vm et gm : EndpointType
  gbfs_main gbfs_versions system_information vehicle_types station_information : EndpointType
  station_status free_bike_status system_hours system_alerts : EndpointType

-- `{"code": …, "details": {…}}`
pub data Reason : Type 0 where
  static_submission_missing static_submission_not_published no_endpoints : Reason
  endpoint_http_error : EndpointType → ℕ → Reason
  endpoint_content_empty : EndpointType → Reason
  endpoint_content_invalid : EndpointType → Protocol → Reason
  endpoint_too_large : EndpointType → ℕ → Reason
  endpoint_url_blocked endpoint_timeout endpoint_unreachable : EndpointType → Reason
  endpoint_fetch_failed endpoint_cache_failed : EndpointType → Reason
