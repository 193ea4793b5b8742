-- ===== src/Endpoints/Merging.antt =====
-- `RealtimeSubmissionWriteSerializer.to_internal_value` with `_url_origin`.
use otwarte_dane_transportow.Common.{
  Bool, false, not, ◌&&◌, Option, none, some, List, [], ◌∷◌, if◌then◌else◌, Text, text_eq,
  non_empty, map, ◌==◌,
}
use otwarte_dane_transportow.History.{EndpointType}
use otwarte_dane_transportow.Scheduler.EntityTypes.{rank}
use otwarte_dane_transportow.Endpoints.Rows.{
  EndpointRt, SentValue, missing, null, value, Item, RawEndpoint, object, other_json,
}

-- The parts that `urlsplit` gives, in lower case.
pub record UrlOrigin : Type 0 where
  pub scheme : Text
  pub netloc : Text

abbrev pub same_origin : UrlOrigin → UrlOrigin → Bool
same_origin a b = text_eq a.scheme b.scheme && text_eq a.netloc b.netloc

-- `row.get('url') or ex.url`
abbrev pub url_or : SentValue Text → Text → Text
url_or missing old = old
url_or null old = old
url_or (value u) old = if non_empty u then u else old

-- The truth value of `row.get('auth_value')`.
abbrev pub is_sent_text : SentValue Text → Bool
is_sent_text missing = false
is_sent_text null = false
is_sent_text (value t) = non_empty t

-- `row.get('auth_type') == ex.auth_type`
abbrev pub is_text : SentValue Text → Text → Bool
is_text missing t = false
is_text null t = false
is_text (value s) t = text_eq s t

-- `row.setdefault(key, old)`
module _ {A : Type 0} where
  abbrev pub set_default : A → SentValue A → SentValue A
  set_default old missing = value old
  set_default old null = null
  set_default old (value a) = value a

-- `by_type.get(endpoint_type)`
abbrev pub by_type : EndpointType → List EndpointRt → Option EndpointRt
by_type t [] = none
by_type t (e ∷ es) = if rank e.endpoint_type == rank t then some e else by_type t es

abbrev pub stored_of : Option EndpointType → List EndpointRt → Option EndpointRt
stored_of none es = none
stored_of (some t) es = by_type t es

abbrev pub with_defaults : EndpointRt → Item → Item
with_defaults ex row = record row {
  url = set_default ex.url row.url;
  hide_original = set_default ex.hide_original row.hide_original;
  is_original = set_default ex.is_original row.is_original;
  auth_type = set_default ex.auth_type row.auth_type;
}

abbrev pub sent_secret : Option Text → SentValue Text
sent_secret none = null
sent_secret (some v) = value v

module _ (url_origin : Text → UrlOrigin) where
  abbrev pub keeps_secret : EndpointRt → Item → Bool
  keeps_secret ex row =
      not (is_sent_text row.auth_value)
      && is_text row.auth_type ex.auth_type
      && same_origin (url_origin (url_or row.url ex.url)) (url_origin ex.url)

  unfoldable pub keep_secret : EndpointRt → Item → Item
  keep_secret ex row =
      if keeps_secret ex row then record row { auth_value = sent_secret ex.auth_value } else row

  abbrev pub merge_with : Bool → Item → Option EndpointRt → Item
  merge_with restricted row none = row
  merge_with restricted row (some ex) =
      keep_secret ex (if restricted then with_defaults ex row else row)

  -- The body of the loop.
  unfoldable pub merge_item : Bool → List EndpointRt → Item → Item
  merge_item restricted rows row = merge_with restricted row (stored_of row.endpoint_type rows)

  abbrev pub merge_raw : Bool → List EndpointRt → RawEndpoint → RawEndpoint
  merge_raw restricted rows (object row) = object (merge_item restricted rows row)
  merge_raw restricted rows other_json = other_json

  -- The endpoints that go on to the checks of the fields.
  unfoldable pub to_internal_endpoints :
      Bool → List EndpointRt → List RawEndpoint → List RawEndpoint
  to_internal_endpoints restricted rows sent = map (merge_raw restricted rows) sent
