-- ===== src/Scheduler/Kept.antt =====
-- What a fetch does to the cached copy, and when it is worth a retry.
use otwarte_dane_transportow.Common.{
  ℕ, ◌+◌, ◌≡◌, ◌≢◌, refl, inl, inr, true, Bool-cases, Option, none, some, List, if-true, Text,
  length, arith,
}
use mathlib.Core.Path.{subst}
use otwarte_dane_transportow.History.{EndpointType, Protocol}
use otwarte_dane_transportow.Fetch.{active, mark_fetch_success}
use otwarte_dane_transportow.Net.Failures.{
  Exception, Attempt, returned, raised, >>=-eq-returned, ok_injective, outbound_url_blocked,
  response_too_large, timeout, connect_timeout, connection_error, ssl_error, http_error,
  empty_feed_content, invalid_feed_content, value_error, other_exception,
}
use otwarte_dane_transportow.Content.Checks.{
  DataType, Parsers, validate_static_feed_stream, validate_realtime_feed_stream,
}
use otwarte_dane_transportow.Scheduler.Fetching.{
  Feed, Downloaded, fetch_ok, raise_for_status, static_body, realtime_body, handled, stored_static,
  written_static, Writes, FetchOutcome, after_write, over_copy, stored_realtime, fetch_static_entry,
  fetch_realtime_endpoint_rt, store, log_error, entry_is_proxy_managed, endpoint_is_proxy_managed,
}

-- A served copy passed the checks of its format.
abbrev pub IsServable : DataType → Option Text → Type 0
IsServable t none = Unit
IsServable t (some body) = validate_static_feed_stream t body ≡ returned tt

abbrev pub IsServableRealtime : Parsers → Protocol → Option Text → Type 0
IsServableRealtime p q none = Unit
IsServableRealtime p q (some body) =
    (ts : List EndpointType) × (validate_realtime_feed_stream p q body ≡ returned ts)

-- What a fetch records and queues, by whether it succeeded.
pub record IsRecorded (f : Feed) (r : FetchOutcome × Feed) : Type 0 where
  pub failure :
      r.0 ≢ fetch_ok → (r.1.validations ≡ f.validations) × (length r.1.errors ≡ length f.errors + 1)
  pub success :
      r.0 ≡ fetch_ok
      → (r.1.control.row.fetch_status ≡ active)
        × (r.1.validations ≡ f.validations + 1)
        × (r.1.errors ≡ f.errors)

static_body-returned :
    (t : DataType) (download : Attempt Downloaded) (body : Text)
    → static_body t download ≡ returned body
    → validate_static_feed_stream t body ≡ returned tt
unfolding static_body
static_body-returned t download body e =
    let a = >>=-eq-returned download _ e in
    let b = >>=-eq-returned (raise_for_status (a.0).status_code) _ (a.2) in
    let c = >>=-eq-returned (validate_static_feed_stream t (a.0).body) _ (b.2) in
    subst (λ x. validate_static_feed_stream t x ≡ returned tt) (ok_injective (c.2)) (c.1)

realtime_body-returned :
    (p : Parsers) (q : Protocol) (download : Attempt Downloaded) (body : Text)
    (types : List EndpointType)
    → realtime_body p q download ≡ returned (body, types)
    → validate_realtime_feed_stream p q body ≡ returned types
unfolding realtime_body
realtime_body-returned p q download body types e =
    let a = >>=-eq-returned download _ e in
    let b = >>=-eq-returned (raise_for_status (a.0).status_code) _ (a.2) in
    let c = >>=-eq-returned (validate_realtime_feed_stream p q (a.0).body) _ (b.2) in
    subst (λ x. validate_realtime_feed_stream p q x.0 ≡ returned (x.1)) (ok_injective (c.2)) (c.1)

handled-not_ok : (e : Exception) → (handled e).outcome ≢ fetch_ok
unfolding handled
handled-not_ok outbound_url_blocked h = absurd cc
handled-not_ok (response_too_large n) h = absurd cc
handled-not_ok empty_feed_content h = absurd cc
handled-not_ok invalid_feed_content h = absurd cc
handled-not_ok timeout h = absurd cc
handled-not_ok connect_timeout h = absurd cc
handled-not_ok (http_error none) h = absurd cc
handled-not_ok (http_error (some n)) h = absurd (ground arith)
handled-not_ok connection_error h = absurd cc
handled-not_ok (ssl_error b) h = absurd cc
handled-not_ok value_error h = absurd cc
handled-not_ok other_exception h = absurd cc

module _ (str : Exception → Text) (now failed_at : ℕ) (f : Feed) where
  -- The outcome of a write and of what follows it.
  after_write-Recorded :
      (before : Feed) (o : Option Exception) (left : Feed) (rest : FetchOutcome × Feed)
      → (left.validations ≡ before.validations) × (length left.errors ≡ length before.errors)
      → IsRecorded before rest
      → IsRecorded before (after_write str o failed_at left rest)
  unfolding log_error
  after_write-Recorded before none left rest k h = h
  after_write-Recorded before (some e) left rest k h = record {
    failure = λ n. (k.0, omega (arith, k.1));
    success = λ o. absurd (handled-not_ok e o);
  }

  after_write-Served :
      (t : DataType) (o : Option Exception) (left : Feed) (rest : FetchOutcome × Feed)
      → IsServable t left.cached_file
      → IsServable t rest.1.cached_file
      → IsServable t (after_write str o failed_at left rest).1.cached_file
  unfolding log_error
  after_write-Served t none left rest k h = h
  after_write-Served t (some e) left rest k h = k

  over_copy-Served :
      (t : DataType) (w : Writes) (content : Option Text)
      → IsServable t f.cached_file
      → IsServable t content
      → IsServable t (over_copy str w content f).cached_file
  over_copy-Served t w content g h = elim (Bool-cases w.in_place) [
    | inl b ↦ rw b h
    | inr b ↦ rw b g
  ]

  over_copy-kept :
      (w : Writes) (content : Option Text)
      → ((over_copy str w content f).validations ≡ f.validations)
        × (length (over_copy str w content f).errors ≡ length f.errors)
  over_copy-kept w content = elim (Bool-cases w.in_place) [
    | inl b ↦ rw b (refl, refl)
    | inr b ↦ rw b (refl, refl)
  ]

  written_static-Recorded :
      (w : Writes) (body : Text) → IsRecorded f (written_static str w body now failed_at f)
  unfolding written_static store mark_fetch_success
  written_static-Recorded w body = after_write-Recorded f w.save _ _ (over_copy-kept w w.torn) (
      after_write-Recorded f w.update_row _ _ (over_copy-kept w (some body)) (
        after_write-Recorded f w.delete_stale _ _ (refl, refl)
          (after_write-Recorded f w.mark_success _ _ (refl, refl)
            (after_write-Recorded f w.delay _ _ (refl, refl)
              (record { failure = λ n. absurd (n refl); success = λ o. (refl, refl, refl) })))))

  written_static-Served :
      (t : DataType) (w : Writes) (body : Text)
      → validate_static_feed_stream t body ≡ returned tt
      → (w.save ≢ none → IsServable t w.torn)
      → IsServable t f.cached_file
      → IsServable t (written_static str w body now failed_at f).1.cached_file
  unfolding written_static store
  written_static-Served t w body valid torn g = saved _ w.save torn (
      after_write-Served t w.update_row _ _ (over_copy-Served t w (some body) g valid) (
        after_write-Served t w.delete_stale _ _ valid (
          after_write-Served t w.mark_success _ _ valid
            (after_write-Served t w.delay _ _ valid valid))))
    where
      saved :
          (rest : FetchOutcome × Feed) (o : Option Exception)
          → (o ≢ none → IsServable t w.torn)
          → IsServable t rest.1.cached_file
          → IsServable t (after_write str o failed_at (over_copy str w w.torn f) rest).1.cached_file
      saved rest none k h = h
      saved rest (some e) k h = unfold log_error in over_copy-Served t w w.torn g (k (λ q. cc))

  stored_static-copy :
      (t : DataType) (w : Writes) (r : Attempt Text)
      → ((body : Text) → r ≡ returned body → validate_static_feed_stream t body ≡ returned tt)
      → (w.save ≢ none → IsServable t w.torn)
      → let (o, f') = stored_static str w r now failed_at f in
        (IsServable t f.cached_file → IsServable t f'.cached_file)
        × ((e : Exception)
            → r ≡ raised e
            → (o ≢ fetch_ok) × (f'.cached_file ≡ f.cached_file) × (f'.cached_at ≡ f.cached_at))
        × IsRecorded f (o, f')
  unfolding stored_static log_error
  stored_static-copy t w (raised e) h torn = (
    λ g. g,
    (λ e' q. (handled-not_ok e, refl, refl)),
    record { failure = λ n. (refl, omega arith); success = λ o. absurd (handled-not_ok e o) },
  )
  stored_static-copy t w (returned body) h torn = (
    λ g. written_static-Served t w body (h body refl) torn g,
    (λ e q. absurd cc),
    written_static-Recorded w body,
  )

  stored_realtime-copy :
      (p : Parsers) (q : Protocol) (r : Attempt (Text × List EndpointType))
      → ((body : Text) (types : List EndpointType)
          → r ≡ returned (body, types)
          → validate_realtime_feed_stream p q body ≡ returned types)
      → let (o, f') = stored_realtime str r now failed_at f in
        (IsServableRealtime p q f.cached_file → IsServableRealtime p q f'.cached_file)
        × (o ≢ fetch_ok
            → (f'.cached_file ≡ f.cached_file)
              × (f'.cached_at ≡ f.cached_at)
              × (f'.types ≡ f.types)
              × (length f'.errors ≡ length f.errors + 1))
        × (o ≡ fetch_ok → (f'.control.row.fetch_status ≡ active) × (f'.errors ≡ f.errors))
  unfolding stored_realtime store log_error mark_fetch_success
  stored_realtime-copy p q (raised e) h =
      (λ g. g, (λ n. (refl, refl, refl, omega arith)), λ o. absurd (handled-not_ok e o))
  stored_realtime-copy p q (returned (body, types)) h =
      (λ g. (types, h body types refl), (λ n. absurd (n refl)), λ o. (refl, refl))

-- A proxied static feed keeps serving a body that passed the checks, if a save of the file that raises
-- leaves one. A fetch whose download raises, is refused by its status or fails the checks, does not
-- succeed and leaves the cached copy and its time alone. A fetch that does not succeed, whichever write
-- raised, queues no validation and records one error; one that succeeds makes the source active,
-- queues one validation and records no error.
pub fetch_static_entry_lem :
    (str : Exception → Text) (w : Writes) (t : DataType) (download : Attempt Downloaded)
    (now failed_at : ℕ) (f : Feed)
    → entry_is_proxy_managed f ≡ true
    → (w.save ≢ none → IsServable t w.torn)
    → let (o, f') = fetch_static_entry str w t download now failed_at f in
      (IsServable t f.cached_file → IsServable t f'.cached_file)
      × ((e : Exception)
          → static_body t download ≡ raised e
          → (o ≢ fetch_ok) × (f'.cached_file ≡ f.cached_file) × (f'.cached_at ≡ f.cached_at))
      × IsRecorded f (o, f')
unfolding fetch_static_entry
fetch_static_entry_lem str w t download now failed_at f h torn = rw h (
    stored_static-copy str now failed_at f t w (static_body t download)
      (static_body-returned t download) torn)

managed-fetch :
    (str : Exception → Text) (p : Parsers) (q : Protocol) (download : Attempt Downloaded)
    (now failed_at : ℕ) (f : Feed)
    → endpoint_is_proxy_managed f ≡ true
    → fetch_realtime_endpoint_rt str p q download now failed_at f
      ≡ stored_realtime str (realtime_body p q download) now failed_at f
unfolding fetch_realtime_endpoint_rt
managed-fetch str p q download now failed_at f h = if-true _ _ _ h

-- Where no write raises, a proxied realtime endpoint keeps serving a body that passed the checks of its
-- protocol: a fetch
-- that fails leaves the cached copy, its time and the entity types alone and records one error; one
-- that succeeds makes the source active and records no error.
pub fetch_realtime_endpoint_rt_lem :
    (str : Exception → Text) (p : Parsers) (q : Protocol) (download : Attempt Downloaded)
    (now failed_at : ℕ) (f : Feed)
    → endpoint_is_proxy_managed f ≡ true
    → let (o, f') = fetch_realtime_endpoint_rt str p q download now failed_at f in
      (IsServableRealtime p q f.cached_file → IsServableRealtime p q f'.cached_file)
      × (o ≢ fetch_ok
          → (f'.cached_file ≡ f.cached_file)
            × (f'.cached_at ≡ f.cached_at)
            × (f'.types ≡ f.types)
            × (length f'.errors ≡ length f.errors + 1))
      × (o ≡ fetch_ok → (f'.control.row.fetch_status ≡ active) × (f'.errors ≡ f.errors))
fetch_realtime_endpoint_rt_lem str p q download now failed_at f h =
    rw (managed-fetch str p q download now failed_at f h) (
      stored_realtime-copy str now failed_at f p q (realtime_body p q download)
        (realtime_body-returned p q download))
