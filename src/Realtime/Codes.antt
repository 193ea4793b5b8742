-- ===== src/Realtime/Codes.antt =====
-- The rejection code of an exception, and the equality of recorded reasons.
use otwarte_dane_transportow.Common.{
  ℕ, Bool, true, false, ◌&&◌, Option, none, some, List, [], ◌∷◌, if◌then◌else◌, Text, text_eq,
}
use otwarte_dane_transportow.History.{
  Protocol, gtfs_rt, siri, gbfs, EndpointType, Reason, static_submission_missing,
  static_submission_not_published, no_endpoints, endpoint_http_error, endpoint_content_empty,
  endpoint_content_invalid, endpoint_too_large, endpoint_url_blocked, endpoint_timeout,
  endpoint_unreachable, endpoint_fetch_failed, endpoint_cache_failed,
}
use otwarte_dane_transportow.Net.Failures.{
  Exception, outbound_url_blocked, response_too_large, timeout, connect_timeout, connection_error,
  ssl_error, empty_feed_content, invalid_feed_content,
}
use otwarte_dane_transportow.Scheduler.EntityTypes.{rank}

-- The classes of `exception_codes`.
pub data ExceptionClass : Type 0 where
  empty_content_class invalid_content_class too_large_class : ExceptionClass
  url_blocked_class timeout_class connection_error_class : ExceptionClass

-- A `ConnectTimeout` is both a `Timeout` and a `ConnectionError`.
unfoldable pub is_instance : Exception → ExceptionClass → Bool
is_instance empty_feed_content empty_content_class = true
is_instance empty_feed_content invalid_content_class = true
is_instance invalid_feed_content invalid_content_class = true
is_instance (response_too_large n) too_large_class = true
is_instance (response_too_large n) url_blocked_class = true
is_instance outbound_url_blocked url_blocked_class = true
is_instance timeout timeout_class = true
is_instance connect_timeout timeout_class = true
is_instance connect_timeout connection_error_class = true
is_instance connection_error connection_error_class = true
is_instance (ssl_error b) connection_error_class = true
is_instance _ _ = false

pub data Code : Type 0 where
  content_empty content_invalid too_large url_blocked timed_out unreachable fetch_failed : Code

abbrev pub exception_codes : List (ExceptionClass × Code)
exception_codes =
    (empty_content_class, content_empty)
    ∷ (invalid_content_class, content_invalid)
    ∷ (too_large_class, too_large)
    ∷ (url_blocked_class, url_blocked)
    ∷ (timeout_class, timed_out)
    ∷ (connection_error_class, unreachable)
    ∷ []

-- `next((c for exc_type, c in exception_codes if isinstance(exc, exc_type)), default)`
unfoldable pub code_in : List (ExceptionClass × Code) → Exception → Code
unfolding is_instance
code_in [] e = fetch_failed
code_in ((exc_type, c) ∷ rest) e = if is_instance e exc_type then c else code_in rest e

-- `exc.max_bytes`, which only `ResponseTooLarge` has.
abbrev pub max_bytes_of : Exception → ℕ
max_bytes_of (response_too_large n) = n
max_bytes_of _ = 0

unfoldable pub coded : Protocol → EndpointType → Exception → Code → Reason
coded q t e content_empty = endpoint_content_empty t
coded q t e content_invalid = endpoint_content_invalid t q
coded q t e too_large = endpoint_too_large t (max_bytes_of e)
coded q t e url_blocked = endpoint_url_blocked t
coded q t e timed_out = endpoint_timeout t
coded q t e unreachable = endpoint_unreachable t
coded q t e fetch_failed = endpoint_fetch_failed t

unfoldable pub reason_of_exception : Protocol → EndpointType → Exception → Reason
unfolding coded code_in
reason_of_exception q t e = coded q t e (code_in exception_codes e)

unfoldable pub protocol_rank : Protocol → ℕ
protocol_rank gtfs_rt = 0
protocol_rank siri = 1
protocol_rank gbfs = 2

-- The dict of a reason, written as numbers.
unfoldable pub dict_of : Reason → Text
unfolding rank protocol_rank
dict_of static_submission_missing = 0 ∷ []
dict_of static_submission_not_published = 1 ∷ []
dict_of no_endpoints = 2 ∷ []
dict_of (endpoint_http_error t status) = 3 ∷ rank t ∷ status ∷ []
dict_of (endpoint_content_empty t) = 4 ∷ rank t ∷ []
dict_of (endpoint_content_invalid t q) = 5 ∷ rank t ∷ protocol_rank q ∷ []
dict_of (endpoint_too_large t limit) = 6 ∷ rank t ∷ limit ∷ []
dict_of (endpoint_url_blocked t) = 7 ∷ rank t ∷ []
dict_of (endpoint_timeout t) = 8 ∷ rank t ∷ []
dict_of (endpoint_unreachable t) = 9 ∷ rank t ∷ []
dict_of (endpoint_fetch_failed t) = 10 ∷ rank t ∷ []
dict_of (endpoint_cache_failed t) = 11 ∷ rank t ∷ []

unfoldable pub same_list : List Reason → List Reason → Bool
unfolding dict_of
same_list [] [] = true
same_list (r ∷ rs) (s ∷ ss) = text_eq (dict_of r) (dict_of s) && same_list rs ss
same_list _ _ = false

-- `submission.rejection_reasons == reasons`
unfoldable pub same_reasons : Option (List Reason) → List Reason → Bool
unfolding same_list
same_reasons none reasons = false
same_reasons (some recorded) reasons = same_list recorded reasons
