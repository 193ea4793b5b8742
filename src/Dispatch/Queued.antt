-- ===== src/Dispatch/Queued.antt =====
-- Which feeds are queued, and which are not.
use mathlib.Core.List.{append_assoc}
use otwarte_dane_transportow.Common.{
  ℕ, ◌+◌, ◌-◌, ◌*◌, ◌/◌, ◌%◌, ◌<◌, ◌≡◌, ◌≢◌, ◌⊎◌, refl, sym, ap, ◌∙◌, Bool, true, false, ◌&&◌, ◌||◌,
  Option, none, some, List, [], ◌∷◌, ◌++◌, if◌then◌else◌, ltb, contains, non_empty, if-true, inl,
  inr, arith,
}
use otwarte_dane_transportow.Fetch.{active, minutes}
use otwarte_dane_transportow.Review.Submissions.{Entry, StaticSubmission, fetch_static_entry}
use otwarte_dane_transportow.Dispatch.Window.{
  minute_of_day, window_times, is_in_window, has_not_succeeded, scheduled_due, retry_due,
  is_dispatched, queued, refresh_static_feeds,
}
use otwarte_dane_transportow.Dispatch.Ticks.{
  instant, minute_of_instant, window_from-has, window_from-whole, found_later,
}

-- Rows are judged one by one.
pub refresh-append :
    (now : ℕ) (completed : List ℕ) (before after : List StaticSubmission) (s : StaticSubmission)
    → refresh_static_feeds now completed (before ++ s ∷ after)
      ≡ refresh_static_feeds now completed before
        ++ (queued now completed s ++ refresh_static_feeds now completed after)
unfolding refresh_static_feeds
refresh-append now completed [] after s = refl
refresh-append now completed (r ∷ before) after s =
    ap (λ l. queued now completed r ++ l) (refresh-append now completed before after s)
    ∙ sym (
        append_assoc (queued now completed r) (refresh_static_feeds now completed before)
          (queued now completed s ++ refresh_static_feeds now completed after))

-- A published feed of the portal's proxy that is fetched by its schedule.
pub record IsScheduled (completed : List ℕ) (s : StaticSubmission) (e : Entry) : Type 0 where
  pub its_entry : s.entry ≡ some e
  pub hidden : e.hide_original ≡ true
  pub published : contains s.id completed ≡ true
  pub has_url : non_empty e.url ≡ true
  pub is_active : e.fetch.fetch_status ≡ active

or_false : (b : Bool) → (b || false) ≡ b
or_false true = refl
or_false false = refl

-- Whether its schedule asks for a fetch.
abbrev pub is_asked : ℕ → Entry → Bool
is_asked now e =
    (is_in_window now e.download_time_1 || is_in_window now e.download_time_2)
    && has_not_succeeded now e.fetch

scheduled-dispatched :
    (completed : List ℕ) (s : StaticSubmission) (e : Entry) (now : ℕ)
    → IsScheduled completed s e
    → is_dispatched now completed s.id e ≡ is_asked now e
unfolding scheduled_due retry_due
scheduled-dispatched completed s e now h =
    rw (h.hidden, h.published, h.has_url, h.is_active) (or_false _)

pub scheduled-queued :
    (completed : List ℕ) (s : StaticSubmission) (e : Entry) (now : ℕ)
    → IsScheduled completed s e
    → queued now completed s ≡ (if is_asked now e then fetch_static_entry e.pk ∷ [] else [])
unfolding queued
scheduled-queued completed s e now h =
    rw (h.its_entry, scheduled-dispatched completed s e now h) refl

-- One of the two times of the entry.
abbrev pub IsTime : Entry → ℕ → Type 0
IsTime e time = (e.download_time_1 ≡ some time) ⊎ (e.download_time_2 ≡ some time)

in_window :
    (day minute d time : ℕ)
    → minute < 1440
    → d < minutes 11
    → time ≡ minute * 60
    → is_in_window (instant day minute + d) (some time) ≡ true
unfolding window_times
in_window day minute d time h g q =
    window_from-has 10 (d / 60000000) (instant day minute + d) time (omega (arith, g)) (
      ap minute_of_day (omega arith)
      ∙ (minute_of_instant day minute (d % 60000000) h (omega arith) ∙ sym q))

either_in_window :
    (e : Entry) (day minute d : ℕ)
    → minute < 1440
    → d < minutes 11
    → IsTime e (minute * 60)
    → (is_in_window (instant day minute + d) e.download_time_1
        || is_in_window (instant day minute + d) e.download_time_2)
      ≡ true
either_in_window e day minute d h g (inl q) =
    rw (q, in_window day minute d (minute * 60) h g refl) refl
either_in_window e day minute d h g (inr q) = rw q (
    found_later (is_in_window (instant day minute + d) e.download_time_1)
      (is_in_window (instant day minute + d) (some (minute * 60)))
      (in_window day minute d (minute * 60) h g refl))

-- A tick that comes less than eleven minutes after a download time of whole minutes queues one fetch
-- of a feed that is fetched by its schedule and has not succeeded in the last ten minutes.
pub refresh_static_feeds-queues :
    (completed : List ℕ) (before after : List StaticSubmission) (s : StaticSubmission) (e : Entry)
    (day minute d : ℕ)
    → IsScheduled completed s e
    → IsTime e (minute * 60)
    → minute < 1440
    → d < minutes 11
    → has_not_succeeded (instant day minute + d) e.fetch ≡ true
    → refresh_static_feeds (instant day minute + d) completed (before ++ s ∷ after)
      ≡ refresh_static_feeds (instant day minute + d) completed before
        ++ fetch_static_entry e.pk ∷ refresh_static_feeds (instant day minute + d) completed after
refresh_static_feeds-queues completed before after s e day minute d h time m g fresh =
    let now = instant day minute + d in
    refresh-append now completed before after s
    ∙ ap
        (λ l.
          refresh_static_feeds now completed before
          ++ (l ++ refresh_static_feeds now completed after))
        (scheduled-queued completed s e now h
          ∙ if-true (is_asked now e) (fetch_static_entry e.pk ∷ []) []
              (rw (either_in_window e day minute d m g time) fresh))

-- The entry's times have seconds.
abbrev pub HasSeconds : Option ℕ → Type 0
HasSeconds none = Unit
HasSeconds (some time) = time % 60 ≢ 0

not_in_window : (now : ℕ) (time : Option ℕ) → HasSeconds time → is_in_window now time ≡ false
unfolding window_times
not_in_window now none h = refl
not_in_window now (some time) h = window_from-whole 10 now time h

not_asked :
    (e : Entry) (now : ℕ)
    → HasSeconds e.download_time_1
    → HasSeconds e.download_time_2
    → is_asked now e ≡ false
not_asked e now first second =
    rw (not_in_window now e.download_time_1 first, not_in_window now e.download_time_2 second) refl

-- A feed whose download times have seconds is never queued by its schedule, at no tick.
pub refresh_static_feeds-skips_seconds :
    (completed : List ℕ) (before after : List StaticSubmission) (s : StaticSubmission) (e : Entry)
    (now : ℕ)
    → IsScheduled completed s e
    → HasSeconds e.download_time_1
    → HasSeconds e.download_time_2
    → refresh_static_feeds now completed (before ++ s ∷ after)
      ≡ refresh_static_feeds now completed before ++ refresh_static_feeds now completed after
refresh_static_feeds-skips_seconds completed before after s e now h first second =
    refresh-append now completed before after s
    ∙ ap
        (λ l.
          refresh_static_feeds now completed before
          ++ (l ++ refresh_static_feeds now completed after))
        (scheduled-queued completed s e now h
          ∙ ap (λ b. if b then fetch_static_entry e.pk ∷ [] else []) (not_asked e now first second))

succeeded_before : (t x y : ℕ) → x < y → ltb (t + x) (t + (minutes 10 + y) - minutes 10) ≡ true
succeeded_before t x y h = ground arith

-- A feed that was fetched `x` after its download time is queued once more by a tick that comes, late
-- in the last minute of the window, more than ten minutes after that success.
pub refresh_static_feeds-queues_again :
    (completed : List ℕ) (before after : List StaticSubmission) (s : StaticSubmission) (e : Entry)
    (day minute x y : ℕ)
    → IsScheduled completed s e
    → IsTime e (minute * 60)
    → minute < 1440
    → e.fetch.last_fetch_success_at ≡ some (instant day minute + x)
    → x < y
    → y < minutes 1
    → refresh_static_feeds (instant day minute + (minutes 10 + y)) completed (before ++ s ∷ after)
      ≡ refresh_static_feeds (instant day minute + (minutes 10 + y)) completed before
        ++ fetch_static_entry e.pk
          ∷ refresh_static_feeds (instant day minute + (minutes 10 + y)) completed after
refresh_static_feeds-queues_again completed before after s e day minute x y h time m q lt late =
    refresh_static_feeds-queues completed before after s e day minute (minutes 10 + y) h time m
      (omega (arith, late)) (rw q (succeeded_before (instant day minute) x y lt))
