-- ===== src/Content/Heads.antt =====
-- The head of a stream is enough: it is judged as the whole body is.
use otwarte_dane_transportow.Common.{
  ℕ, zero, suc, ◌+◌, ◌≤◌, ◌≡◌, ◌↔◌, ◌||◌, refl, ap, inl, inr, true, false, [], ◌∷◌, take,
  if◌then◌else◌, Text, non_empty, Bool-cases, arith,
}
use otwarte_dane_transportow.History.{Protocol, siri, gtfs_rt, gbfs}
use otwarte_dane_transportow.Net.Failures.{returned}
use otwarte_dane_transportow.Content.Checks.{
  DataType, gtfs, netex, other, Parsers, content_sniff_bytes, is_white, lstrip_bytes,
  looks_like_zip, looks_like_html, starts_as_xml, validate_static_feed_content,
  validate_static_feed_stream, validate_realtime_feed_content, validate_realtime_feed_stream,
  validate_body,
}

-- How many bytes of white space a body begins with.
unfoldable pub leading : Text → ℕ
leading [] = 0
leading (c ∷ s) = if is_white c then suc (leading s) else 0

take-take : (k n : ℕ) (s : Text) → k ≤ n → take k (take n s) ≡ take k s
take-take zero n s h = refl
take-take (suc k) zero s h = absurd (omega arith)
take-take (suc k) (suc n) [] h = refl
take-take (suc k) (suc n) (c ∷ s) h = ap (λ t. c ∷ t) (take-take k n s (omega arith))

take-lstrip :
    (k n : ℕ) (s : Text)
    → leading s + k ≤ n
    → take k (lstrip_bytes (take n s)) ≡ take k (lstrip_bytes s)
unfolding leading lstrip_bytes
take-lstrip zero zero s h = refl
take-lstrip (suc k) zero s h = absurd (omega arith)
take-lstrip k (suc n) [] h = refl
take-lstrip k (suc n) (c ∷ s) h = elim (Bool-cases (is_white c)) [
  | inl e ↦ rw e (take-lstrip k n s (ground arith))
  | inr e ↦ rw e (take-take k (suc n) (c ∷ s) (ground arith))
]

non_empty-take : (n : ℕ) (s : Text) → non_empty (take (suc n) s) ≡ non_empty s
non_empty-take n [] = refl
non_empty-take n (c ∷ s) = refl

module _ (content : Text) (h : leading content + 15 ≤ content_sniff_bytes) where
  head_html : looks_like_html (take content_sniff_bytes content) ≡ looks_like_html content
  unfolding looks_like_html
  head_html = rw (take-lstrip 15 content_sniff_bytes content h) refl

  head_xml : starts_as_xml (take content_sniff_bytes content) ≡ starts_as_xml content
  unfolding starts_as_xml
  head_xml = rw (take-lstrip 1 content_sniff_bytes content (omega arith)) refl

  head_zip : looks_like_zip (take content_sniff_bytes content) ≡ looks_like_zip content
  unfolding looks_like_zip
  head_zip = rw (take-take 4 content_sniff_bytes content (omega arith)) refl

head_realtime :
    (content : Text) (p : Parsers) (q : Protocol)
    → leading content + 15 ≤ content_sniff_bytes
    → validate_realtime_feed_stream p q content ≡ validate_realtime_feed_content p q content
unfolding validate_realtime_feed_stream validate_realtime_feed_content validate_body
head_realtime content p siri h = rw (non_empty-take 8191 content, head_html content h) refl
head_realtime content p gtfs_rt h = refl
head_realtime content p gbfs h = refl

-- A body with at most 8177 bytes of leading white space is judged by its head as it is as a whole,
-- for a static feed of any type and for a realtime feed of any protocol.
pub stream_lem :
    (content : Text) (p : Parsers)
    → leading content + 15 ≤ content_sniff_bytes
    → ((t : DataType)
        → validate_static_feed_stream t content ≡ validate_static_feed_content t content)
      × ((q : Protocol)
          → validate_realtime_feed_stream p q content ≡ validate_realtime_feed_content p q content)
unfolding validate_static_feed_stream validate_static_feed_content
stream_lem content p h = (
  λ t.
      rw (non_empty-take 8191 content, head_html content h, head_xml content h, head_zip content h)
        refl,
  λ q. head_realtime content p q h,
)

-- A cached static body is not empty and not an HTML page; for GTFS it is a ZIP archive, and for
-- NeTEx a ZIP archive or XML.
pub validate_static_feed_content_iff :
    (t : DataType) (content : Text)
    → (validate_static_feed_content t content ≡ returned tt) ↔ (
        (non_empty content ≡ true)
        × (looks_like_html content ≡ false)
        × (t ≡ gtfs → looks_like_zip content ≡ true)
        × (t ≡ netex → (looks_like_zip content || starts_as_xml content) ≡ true))
unfolding validate_static_feed_content
validate_static_feed_content_iff gtfs content = ground arith
validate_static_feed_content_iff netex content = ground arith
validate_static_feed_content_iff other content = ground arith
