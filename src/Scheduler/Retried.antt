-- ===== src/Scheduler/Retried.antt =====
-- When a fetch is worth a retry.
use otwarte_dane_transportow.Common.{
  ℕ, ◌≡◌, ◌∙◌, refl, sym, inl, inr, Bool, true, false, none, some, leb, take, not, non_empty, ◌||◌,
  ◌&&◌, if◌then◌else◌, Text, Bool-cases, arith,
}
use otwarte_dane_transportow.Net.Failures.{
  Exception, Attempt, returned, raised, ◌>>=◌, outbound_url_blocked, response_too_large, timeout,
  connect_timeout, connection_error, ssl_error, http_error, empty_feed_content,
  invalid_feed_content, value_error, other_exception,
}
use otwarte_dane_transportow.Content.Checks.{
  DataType, content_sniff_bytes, looks_like_zip, looks_like_html, starts_as_xml, is_gtfs, is_netex,
  validate_static_feed_stream, validate_static_feed_content,
}
use otwarte_dane_transportow.Scheduler.Fetching.{
  Feed, Downloaded, FetchOutcome, fetch_transient, raise_for_status, static_body, handled,
  stored_static, written_static, Writes, fetch_static_entry, entry_is_proxy_managed,
}

-- A server's error, a timeout or a lost connection: the failures that may go away.
abbrev pub is_passing : Attempt Downloaded → Bool
is_passing (returned d) = leb 500 d.status_code && leb d.status_code 599
is_passing (raised timeout) = true
is_passing (raised connect_timeout) = true
is_passing (raised connection_error) = true
is_passing (raised (ssl_error _)) = true
is_passing (raised (http_error (some code))) = leb 500 code
is_passing (raised _) = false

abbrev pub is_transient : FetchOutcome → Bool
is_transient fetch_transient = true
is_transient _ = false

handled-transient : (e : Exception) → is_transient (handled e).outcome ≡ is_passing (raised e)
unfolding handled
handled-transient outbound_url_blocked = refl
handled-transient (response_too_large n) = refl
handled-transient empty_feed_content = refl
handled-transient invalid_feed_content = refl
handled-transient timeout = refl
handled-transient connect_timeout = refl
handled-transient (http_error none) = refl
handled-transient (http_error (some n)) = ground arith
handled-transient connection_error = refl
handled-transient (ssl_error b) = refl
handled-transient value_error = refl
handled-transient other_exception = refl

data IsFinal : Attempt {0} Unit → Type 0 where
  accepted : IsFinal (returned tt)
  is_empty : IsFinal (raised empty_feed_content)
  is_invalid : IsFinal (raised invalid_feed_content)

if-IsFinal :
    (b : Bool) {x y : Attempt {0} Unit} → IsFinal x → IsFinal y → IsFinal (if b then x else y)
if-IsFinal true hx hy = hx
if-IsFinal false hx hy = hy

validate-IsFinal : (t : DataType) (content : Text) → IsFinal (validate_static_feed_stream t content)
unfolding validate_static_feed_stream validate_static_feed_content
validate-IsFinal t content =
    let head = take content_sniff_bytes content in
    let is_zip = looks_like_zip head in
    if-IsFinal (not (non_empty head)) is_empty (
      if-IsFinal (looks_like_html head) is_invalid (
        if-IsFinal (is_gtfs t && not is_zip) is_invalid
          (if-IsFinal (is_netex t && not (is_zip || starts_as_xml head)) is_invalid accepted)))

-- Writes that do not raise.
abbrev pub smooth : Writes
smooth = record {
  in_place = true;
  save = none;
  torn = none;
  update_row = none;
  delete_stale = none;
  mark_success = none;
  delay = none;
}

module _ (str : Exception → Text) (now failed_at : ℕ) (f : Feed) where
  checked-transient :
      (body : Text) (r : Attempt {0} Unit)
      → IsFinal r
      → is_transient ((stored_static str smooth (r >>= λ valid. returned body) now failed_at f).0)
        ≡ false
  unfolding stored_static written_static handled
  checked-transient body r accepted = refl
  checked-transient body r is_empty = refl
  checked-transient body r is_invalid = refl

  -- The outcome of a body that was downloaded with some status.
  body-transient :
      (t : DataType) (d : Downloaded)
      → is_transient ((stored_static str smooth (static_body t (returned d)) now failed_at f).0)
        ≡ is_passing (returned d)
  unfolding static_body raise_for_status
  body-transient t d = elim (Bool-cases (leb 400 d.status_code && leb d.status_code 599)) [
    | inl e ↦ rw e (unfold stored_static written_static handled in ground arith)
    | inr e ↦ rw e (checked-transient d.body _ (validate-IsFinal t d.body) ∙ sym (low_status e))
  ]
    where
      low_status :
          (leb 400 d.status_code && leb d.status_code 599) ≡ false → is_passing (returned d) ≡ false
      low_status e = ground arith

-- Where no write raises, a fetch of a proxied feed asks for a retry exactly when the server failed with a 5xx status, the
-- time ran out or the connection failed; a refused URL, a body that is too large or no feed, and a
-- 4xx status are final.
pub fetch_static_entry-transient :
    (str : Exception → Text) (t : DataType) (download : Attempt Downloaded) (now failed_at : ℕ)
    (f : Feed)
    → entry_is_proxy_managed f ≡ true
    → is_transient ((fetch_static_entry str smooth t download now failed_at f).0)
      ≡ is_passing download
unfolding fetch_static_entry
fetch_static_entry-transient str t (raised e) now failed_at f h =
    rw h (unfold stored_static static_body in handled-transient e)
fetch_static_entry-transient str t (returned d) now failed_at f h =
    rw h (body-transient str now failed_at f t d)
