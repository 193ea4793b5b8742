-- ===== src/Content/Checks.antt =====
-- The checks of a static and of a realtime body. The JSON and protobuf parsers are parameters.
use otwarte_dane_transportow.Common.{
  ℕ, ◌+◌, Bool, true, false, not, ◌&&◌, ◌||◌, Option, none, some, List, [], ◌∷◌, map, take, leb,
  ◌==◌, if◌then◌else◌, Text, text_eq, non_empty,
}
use otwarte_dane_transportow.History.{
  Protocol, gtfs_rt, siri, gbfs, EndpointType, trip_update, vehicle_position, service_alert,
}
use otwarte_dane_transportow.Net.Failures.{
  Attempt, returned, raised, empty_feed_content, invalid_feed_content,
}

abbrev pub content_sniff_bytes : ℕ
content_sniff_bytes = 8192

-- `FeedSubmission.data_type`
pub data DataType : Type 0 where
  gtfs netex other : DataType

-- `bytes.lstrip`: the white space of ASCII.
abbrev pub is_white : ℕ → Bool
is_white c = (c == 32) || (leb 9 c && leb c 13)

unfoldable pub lstrip_bytes : Text → Text
lstrip_bytes [] = []
lstrip_bytes (c ∷ s) = if is_white c then lstrip_bytes s else c ∷ s

abbrev pub lower_byte : ℕ → ℕ
lower_byte c = if leb b'A' c && leb c b'Z' then c + 32 else c

unfoldable pub starts_with : Text → Text → Bool
starts_with [] s = true
starts_with (a ∷ p) [] = false
starts_with (a ∷ p) (b ∷ s) = (a == b) && starts_with p s

-- `data[:4] in _ZIP_MAGICS`
unfoldable pub looks_like_zip : Text → Bool
looks_like_zip bytes =
    let head = take 4 bytes in
    text_eq head (b'P' ∷ b'K' ∷ 3 ∷ 4 ∷ [])
    || (text_eq head (b'P' ∷ b'K' ∷ 5 ∷ 6 ∷ []) || text_eq head (b'P' ∷ b'K' ∷ 7 ∷ 8 ∷ []))

abbrev pub html_tag : Text
html_tag = b'<' ∷ b'h' ∷ b't' ∷ b'm' ∷ b'l' ∷ []

abbrev pub doctype_tag : Text
doctype_tag = b'<' ∷ b'!' ∷ b'd' ∷ b'o' ∷ b'c' ∷ b't' ∷ b'y' ∷ b'p' ∷ b'e' ∷ []

unfoldable pub looks_like_html : Text → Bool
unfolding lstrip_bytes starts_with
looks_like_html bytes =
    let head = map lower_byte (take 15 (lstrip_bytes bytes)) in
    starts_with html_tag head || starts_with doctype_tag head

-- `content.lstrip()[:1] == b'<'`
unfoldable pub starts_as_xml : Text → Bool
unfolding lstrip_bytes
starts_as_xml content = text_eq (take 1 (lstrip_bytes content)) (b'<' ∷ [])

abbrev pub is_gtfs : DataType → Bool
is_gtfs gtfs = true
is_gtfs _ = false

abbrev pub is_netex : DataType → Bool
is_netex netex = true
is_netex _ = false

unfoldable pub validate_static_feed_content : DataType → Text → Attempt {0} Unit
unfolding looks_like_zip looks_like_html starts_as_xml
validate_static_feed_content data_type content =
    if not (non_empty content)
    then raised empty_feed_content
    else if looks_like_html content
    then raised invalid_feed_content
    else if is_gtfs data_type && not (looks_like_zip content)
    then raised invalid_feed_content
    else if is_netex data_type && not (looks_like_zip content || starts_as_xml content)
    then raised invalid_feed_content
    else returned tt

-- Only the head of the stream is read.
unfoldable pub validate_static_feed_stream : DataType → Text → Attempt {0} Unit
unfolding validate_static_feed_content
validate_static_feed_stream data_type content =
    validate_static_feed_content data_type (take content_sniff_bytes content)

-- `entity.HasField` of the three fields.
pub record Entity : Type 0 where
  pub has_trip_update : Bool
  pub has_vehicle : Bool
  pub has_alert : Bool

pub record FeedMessage : Type 0 where
  pub gtfs_realtime_version : Text
  pub entities : List Entity

-- `FeedMessage.ParseFromString`, none where it raises, and whether `json.loads` returns.
pub record Parsers : Type 0 where
  pub parse_feed_message : Text → Option FeedMessage
  pub is_json : Text → Bool

abbrev pub when : Bool → EndpointType → List EndpointType → List EndpointType
when b t ts = if b then t ∷ ts else ts

-- The set of the source as a list.
unfoldable pub entity_types : List Entity → List EndpointType
entity_types [] = []
entity_types (e ∷ es) =
    when e.has_trip_update trip_update
      (when e.has_vehicle vehicle_position (when e.has_alert service_alert (entity_types es)))

unfoldable pub types_of_message : Option FeedMessage → Attempt (List EndpointType)
unfolding entity_types
types_of_message none = raised invalid_feed_content
types_of_message (some m) =
    if non_empty m.gtfs_realtime_version
    then returned (entity_types m.entities)
    else raised invalid_feed_content

module _ (p : Parsers) where
  unfoldable pub validate_gtfs_rt_protobuf : Text → Attempt (List EndpointType)
  unfolding types_of_message
  validate_gtfs_rt_protobuf content = types_of_message (p.parse_feed_message content)

  -- The part of `validate_realtime_feed_content` that depends on the protocol.
  unfoldable pub validate_body : Protocol → Text → Attempt (List EndpointType)
  unfolding validate_gtfs_rt_protobuf looks_like_html starts_as_xml
  validate_body gbfs content =
      if p.is_json content then returned [] else raised invalid_feed_content
  validate_body gtfs_rt content =
      if starts_as_xml content
      then raised invalid_feed_content
      else validate_gtfs_rt_protobuf content
  validate_body siri content =
      if looks_like_html content then raised invalid_feed_content else returned []

  unfoldable pub validate_realtime_feed_content : Protocol → Text → Attempt (List EndpointType)
  unfolding validate_body
  validate_realtime_feed_content protocol content =
      if non_empty content then validate_body protocol content else raised empty_feed_content

  unfoldable pub validate_realtime_feed_stream : Protocol → Text → Attempt (List EndpointType)
  unfolding validate_realtime_feed_content
  validate_realtime_feed_stream siri content =
      validate_realtime_feed_content siri (take content_sniff_bytes content)
  validate_realtime_feed_stream gtfs_rt content = validate_realtime_feed_content gtfs_rt content
  validate_realtime_feed_stream gbfs content = validate_realtime_feed_content gbfs content
