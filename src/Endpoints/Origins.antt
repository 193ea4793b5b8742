-- ===== src/Endpoints/Origins.antt =====
-- Where a stored secret may go.
use otwarte_dane_transportow.Common.{
  ◌≡◌, refl, ap, Bool, true, false, not, ◌&&◌, Option, none, some, List, [], ◌∷◌, ◌⊎◌, inl, inr,
  if◌then◌else◌, Text, text_eq_sound,
}
use otwarte_dane_transportow.Endpoints.Rows.{
  EndpointRt, SentValue, missing, null, value, Item, RawEndpoint, object, other_json,
}
use otwarte_dane_transportow.Endpoints.Merging.{
  UrlOrigin, same_origin, url_or, is_sent_text, is_text, stored_of, with_defaults, sent_secret,
  keeps_secret, keep_secret, merge_with, merge_item, to_internal_endpoints,
}

module _ (url_origin : Text → UrlOrigin) (rows : List EndpointRt) where
  -- The stored endpoint of the same type has this secret, for the same kind of credentials, and for
  -- a URL of the same scheme and host as the URL that is sent, or as its own if none is.
  pub record IsOwn (row : Item) (v : Text) : Type 0 where
    pub stored : EndpointRt
    pub found : stored_of row.endpoint_type rows ≡ some stored
    pub secret : stored.auth_value ≡ some v
    pub same_kind : row.auth_type ≡ value stored.auth_type
    pub scheme : (url_origin (url_or row.url stored.url)).scheme ≡ (url_origin stored.url).scheme
    pub netloc : (url_origin (url_or row.url stored.url)).netloc ≡ (url_origin stored.url).netloc

  -- An endpoint that goes on from the object `sent`: its secret was sent, or is its own.
  abbrev pub IsAllowed : Item → Item → Type 0
  IsAllowed sent row =
      (v : Text) → row.auth_value ≡ value v → (sent.auth_value ≡ value v) ⊎ IsOwn row v

  abbrev pub AreAllowed : List RawEndpoint → List RawEndpoint → Type 0
  AreAllowed [] [] = Unit {0}
  AreAllowed (object sent ∷ ss) (object row ∷ rs) = IsAllowed sent row × AreAllowed ss rs
  AreAllowed (other_json ∷ ss) (other_json ∷ rs) = AreAllowed ss rs
  AreAllowed _ _ = ⊥

  is_text_sound : (s : SentValue Text) (t : Text) → is_text s t ≡ true → s ≡ value t
  is_text_sound missing t h = cc
  is_text_sound null t h = cc
  is_text_sound (value s) t h = ap value (text_eq_sound s t h)

  and-true : (a b c : Bool) → (a && b && c) ≡ true → (b ≡ true) × (c ≡ true)
  and-true true true true h = (refl, refl)
  and-true true true false h = cc
  and-true true false c h = cc
  and-true false b c h = cc

  secret_value : (o : Option Text) (v : Text) → sent_secret o ≡ value v → o ≡ some v
  secret_value none v h = cc
  secret_value (some u) v h = cc

  keep_secret_lem :
      (ex : EndpointRt) (sent row : Item)
      → stored_of row.endpoint_type rows ≡ some ex
      → row.auth_value ≡ sent.auth_value
      → IsAllowed sent (keep_secret url_origin ex row)
  unfolding keep_secret
  keep_secret_lem ex sent row found same v = by_test (keeps_secret url_origin ex row) refl
    where
      by_test :
          (b : Bool)
          → keeps_secret url_origin ex row ≡ b
          → (if b then record row { auth_value = sent_secret ex.auth_value } else row).auth_value
            ≡ value v
          → (sent.auth_value ≡ value v)
            ⊎ IsOwn (if b then record row { auth_value = sent_secret ex.auth_value } else row) v
      by_test false t h = inl cc
      by_test true t h =
          let origins = same_origin (url_origin (url_or row.url ex.url)) (url_origin ex.url) in
          let (kind, origin) =
            and-true (not (is_sent_text row.auth_value)) (is_text row.auth_type ex.auth_type)
              origins t in
          let (schemes, netlocs) = and-true true _ _ origin in
          inr (record {
            stored = ex;
            found = found;
            secret = secret_value ex.auth_value v h;
            same_kind = is_text_sound row.auth_type ex.auth_type kind;
            scheme = text_eq_sound _ _ schemes;
            netloc = text_eq_sound _ _ netlocs;
          })

  merge_item-IsAllowed :
      (restricted : Bool) (sent : Item)
      → IsAllowed sent (merge_item url_origin restricted rows sent)
  unfolding merge_item
  merge_item-IsAllowed restricted sent = by_row (stored_of sent.endpoint_type rows) refl restricted
    where
      by_row :
          (o : Option EndpointRt)
          → stored_of sent.endpoint_type rows ≡ o
          → (restricted : Bool) → IsAllowed sent (merge_with url_origin restricted sent o)
      by_row none found restricted = λ v h. inl h
      by_row (some ex) found true = keep_secret_lem ex sent (with_defaults ex sent) found refl
      by_row (some ex) found false = keep_secret_lem ex sent sent found refl

  -- Of the endpoints that a request sends for a stored submission, each goes on in its place, and
  -- with a secret only if the request sent it, or if it is the secret stored for the same type, with
  -- the same kind of credentials and the same scheme and host.
  pub to_internal_endpoints-AreAllowed :
      (restricted : Bool) (sent : List RawEndpoint)
      → AreAllowed sent (to_internal_endpoints url_origin restricted rows sent)
  unfolding to_internal_endpoints
  to_internal_endpoints-AreAllowed restricted [] = tt
  to_internal_endpoints-AreAllowed restricted (object row ∷ rest) =
      (merge_item-IsAllowed restricted row, to_internal_endpoints-AreAllowed restricted rest)
  to_internal_endpoints-AreAllowed restricted (other_json ∷ rest) =
      to_internal_endpoints-AreAllowed restricted rest
