-- ===== src/Realtime/Same.antt =====
-- Reasons that are written alike are the same.
use otwarte_dane_transportow.Common.{
  ℕ, true, List, [], ◌∷◌, Text, text_eq, text_eq_refl, text_eq_sound, ◌≡◌, refl, sym, ap, ◌∙◌,
  arith, zero, suc, inl, inr, Bool-cases,
}
use otwarte_dane_transportow.History.{
  Protocol, gtfs_rt, siri, gbfs, EndpointType, Reason, static_submission_missing,
  static_submission_not_published, no_endpoints, endpoint_http_error, endpoint_content_empty,
  endpoint_content_invalid, endpoint_too_large, endpoint_url_blocked, endpoint_timeout,
  endpoint_unreachable, endpoint_fetch_failed, endpoint_cache_failed, trip_update, vehicle_position,
  service_alert, sx, sm, vm, et, gm, gbfs_main, gbfs_versions, system_information, vehicle_types,
  station_information, station_status, free_bike_status, system_hours, system_alerts,
}
use otwarte_dane_transportow.Scheduler.EntityTypes.{rank}
use otwarte_dane_transportow.Realtime.Codes.{dict_of, same_list}

abbrev all_types : List EndpointType
all_types =
    et ∷ free_bike_status ∷ gbfs_main ∷ gbfs_versions ∷ gm ∷ service_alert ∷ sm
    ∷ station_information ∷ station_status ∷ sx ∷ system_alerts ∷ system_hours ∷ system_information
    ∷ trip_update ∷ vehicle_position ∷ vehicle_types ∷ vm ∷ []

-- The element at a place, or the default after the end.
at {ℓ} : {A : Type ℓ} → A → ℕ → List A → A
at d n [] = d
at d zero (x ∷ xs) = x
at d (suc n) (x ∷ xs) = at d n xs

abbrev type_at : ℕ → EndpointType
type_at n = at vm n all_types

type-rank : (t : EndpointType) → type_at (rank t) ≡ t
unfolding rank at
type-rank et = refl
type-rank free_bike_status = refl
type-rank gbfs_main = refl
type-rank gbfs_versions = refl
type-rank gm = refl
type-rank service_alert = refl
type-rank sm = refl
type-rank station_information = refl
type-rank station_status = refl
type-rank sx = refl
type-rank system_alerts = refl
type-rank system_hours = refl
type-rank system_information = refl
type-rank trip_update = refl
type-rank vehicle_position = refl
type-rank vehicle_types = refl
type-rank vm = refl

abbrev of_protocol_rank : ℕ → Protocol
of_protocol_rank n = at gbfs n (gtfs_rt ∷ siri ∷ [])

abbrev reason_at : ℕ → EndpointType → ℕ → Reason
reason_at c t n = at no_endpoints c (
    static_submission_missing
    ∷ static_submission_not_published
    ∷ no_endpoints
    ∷ endpoint_http_error t n
    ∷ endpoint_content_empty t
    ∷ endpoint_content_invalid t (of_protocol_rank n)
    ∷ endpoint_too_large t n
    ∷ endpoint_url_blocked t
    ∷ endpoint_timeout t
    ∷ endpoint_unreachable t
    ∷ endpoint_fetch_failed t
    ∷ endpoint_cache_failed t
    ∷ [])

of_dict : Text → Reason
of_dict [] = no_endpoints
of_dict (c ∷ []) = reason_at c vm 0
of_dict (c ∷ t ∷ []) = reason_at c (type_at t) 0
of_dict (c ∷ t ∷ n ∷ rest) = reason_at c (type_at t) n

of_dict-dict_of : (r : Reason) → of_dict (dict_of r) ≡ r
unfolding of_dict dict_of at
of_dict-dict_of static_submission_missing = refl
of_dict-dict_of static_submission_not_published = refl
of_dict-dict_of no_endpoints = refl
of_dict-dict_of (endpoint_http_error t status) =
    ap (λ x. endpoint_http_error x status) (type-rank t)
of_dict-dict_of (endpoint_content_empty t) = ap endpoint_content_empty (type-rank t)
of_dict-dict_of (endpoint_content_invalid t gtfs_rt) =
    ap (λ x. endpoint_content_invalid x gtfs_rt) (type-rank t)
of_dict-dict_of (endpoint_content_invalid t siri) =
    ap (λ x. endpoint_content_invalid x siri) (type-rank t)
of_dict-dict_of (endpoint_content_invalid t gbfs) =
    ap (λ x. endpoint_content_invalid x gbfs) (type-rank t)
of_dict-dict_of (endpoint_too_large t limit) = ap (λ x. endpoint_too_large x limit) (type-rank t)
of_dict-dict_of (endpoint_url_blocked t) = ap endpoint_url_blocked (type-rank t)
of_dict-dict_of (endpoint_timeout t) = ap endpoint_timeout (type-rank t)
of_dict-dict_of (endpoint_unreachable t) = ap endpoint_unreachable (type-rank t)
of_dict-dict_of (endpoint_fetch_failed t) = ap endpoint_fetch_failed (type-rank t)
of_dict-dict_of (endpoint_cache_failed t) = ap endpoint_cache_failed (type-rank t)

pub same_list_refl : (rs : List Reason) → same_list rs rs ≡ true
unfolding same_list
same_list_refl [] = refl
same_list_refl (r ∷ rs) = rw (text_eq_refl (dict_of r), same_list_refl rs) refl

pub same_list_sound : (rs ss : List Reason) → same_list rs ss ≡ true → rs ≡ ss
unfolding same_list
same_list_sound [] [] h = refl
same_list_sound [] (s ∷ ss) h = absurd cc
same_list_sound (r ∷ rs) [] h = absurd cc
same_list_sound (r ∷ rs) (s ∷ ss) h = elim (Bool-cases (text_eq (dict_of r) (dict_of s))) [
  | inl e ↦
      let same =
        sym (of_dict-dict_of r)
        ∙ ap of_dict (text_eq_sound (dict_of r) (dict_of s) e)
        ∙ of_dict-dict_of s in
      rw (same, same_list_sound rs ss (ground arith)) refl
  | inr e ↦ absurd (ground arith)
]
