-- ===== src/Endpoints/Rows.antt =====
-- Realtime submissions with their endpoints, and what a request sends of them.
use otwarte_dane_transportow.Common.{ℕ, Bool, Option, List, Text}
use otwarte_dane_transportow.History.{Protocol, EndpointType}
use otwarte_dane_transportow.Content.Checks.{DataType}

-- A row of `RealtimeEndpointRT`, with its secret decrypted.
pub record EndpointRt : Type 0 where
  pub endpoint_type : EndpointType
  pub url : Text
  pub hide_original : Bool
  pub is_original : Bool
  pub auth_type : Text
  pub auth_value : Option Text
  pub interval : ℕ

pub record StaticRef : Type 0 where
  pub id : ℕ
  pub transport_organization : ℕ
  pub data_type : DataType

pub record RealtimeInstance : Type 0 where
  pub transport_organization : ℕ
  pub static_submission : Option StaticRef
  pub protocol : Protocol
  pub name : Text
  pub note : Text
  pub license : Text
  pub endpoints : List EndpointRt

-- A value of a JSON object: not there, null, or a value of the kind that the field takes.
pub data SentValue (A : Type 0) : Type 0 where
  missing null : SentValue A
  value : A → SentValue A

-- An endpoint as it is sent; an `endpoint_type` that is no known text is `none`.
pub record Item : Type 0 where
  pub endpoint_type : Option EndpointType
  pub url : SentValue Text
  pub hide_original : SentValue Bool
  pub is_original : SentValue Bool
  pub auth_type : SentValue Text
  pub auth_value : SentValue Text
  pub interval : SentValue ℕ

-- An element of the list `endpoints`: an object, or another value.
pub data RawEndpoint : Type 0 where
  object : Item → RawEndpoint
  other_json : RawEndpoint

-- An endpoint after the checks of its fields: `none` where the key is missing.
pub record EndpointData : Type 0 where
  pub endpoint_type : EndpointType
  pub url : Text
  pub hide_original : Option Bool
  pub is_original : Option Bool
  pub auth_type : Option Text
  pub auth_value : Option Text
  pub interval : Option ℕ

-- The data of a request after the checks of the fields.
pub record RealtimeData : Type 0 where
  pub transport_organization : Option ℕ
  pub static_submission : Option (Option StaticRef)
  pub protocol : Option Protocol
  pub name : Option Text
  pub note : Option Text
  pub license : Option Text
  pub endpoints : Option (List EndpointData)
