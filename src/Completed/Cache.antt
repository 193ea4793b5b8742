-- ===== src/Completed/Cache.antt =====
-- `completed_submission_ids` and its invalidation, with the readers and writers of several
-- processes as steps. A reader that misses takes a snapshot and stores it later; a writer's change
-- becomes visible when its transaction ends, and its signal deletes the entry at some moment.
use otwarte_dane_transportow.Common.{
  ℕ, ◌+◌, ◌≤◌, ◌≡◌, Option, none, some, List, [], ◌∷◌, ◌++◌, ltb, ◌==◌, if◌then◌else◌,
}
use otwarte_dane_transportow.History.{Table, ordered, first, stage_of}

abbrev pub completed_ids_cache_ttl : ℕ
completed_ids_cache_ttl = 60

-- A submission by its id and its history.
pub record Submitted : Type 0 where
  pub id : ℕ
  pub table : Table

-- `_compute_completed_submission_ids`: the last history row is at stage 4. A submission without
-- rows has no stage here, and stage 1 elsewhere; neither is 4.
unfoldable pub compute_completed_submission_ids : List Submitted → List ℕ
compute_completed_submission_ids [] = []
compute_completed_submission_ids (s ∷ ss) =
    let rest = compute_completed_submission_ids ss in
    if stage_of (first (ordered s.table.rows)) == 4 then s.id ∷ rest else rest

pub record Entry : Type 0 where
  pub ids : List ℕ
  pub expires : ℕ

-- What a reader computed, and when.
pub record Snapshot : Type 0 where
  pub ids : List ℕ
  pub taken : ℕ

-- `rows` is what is committed, and `reading` are the readers between their query and their store.
pub record Site : Type 0 where
  pub rows : List Submitted
  pub cache : Option Entry
  pub reading : List Snapshot
  pub now : ℕ

-- `cache.get(…)`: an entry is gone once its time is over.
unfoldable pub cache_get : ℕ → Option Entry → Option (List ℕ)
cache_get now none = none
cache_get now (some e) = if ltb now e.expires then some e.ids else none

unfoldable pub cache_set : List ℕ → ℕ → Option Entry
cache_set ids now = some (record { ids = ids; expires = now + completed_ids_cache_ttl })

-- A reader that misses; a reader that stores, at most `slow` after its query; a transaction that
-- ends; a signal; the passing of time.
pub data Step (slow : ℕ) : Site → Site → Type 0 where
  miss :
      (s : Site)
      → cache_get s.now s.cache ≡ none
      → Step slow s (record s {
        reading =
            record { ids = compute_completed_submission_ids s.rows; taken = s.now } ∷ s.reading;
      })
  store :
      (r : Snapshot) (before rest : List Snapshot) (s : Site)
      → s.reading ≡ before ++ r ∷ rest
      → s.now ≤ r.taken + slow
      → Step slow s (record s { cache = cache_set r.ids s.now; reading = before ++ rest })
  commit : (rows : List Submitted) (s : Site) → Step slow s (record s { rows = rows })
  invalidate : (s : Site) → Step slow s (record s { cache = none })
  tick : (n : ℕ) (s : Site) → Step slow s (record s { now = s.now + n })

pub data Reach (slow : ℕ) (s : Site) : Site → Type 0 where
  here : Reach slow s s
  next : {t : Site} (u : Site) → Reach slow s t → Step slow t u → Reach slow s u
