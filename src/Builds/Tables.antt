-- ===== src/Builds/Tables.antt =====
-- Tables of rows with keys: what an update by the key keeps, and how many rows pass a test.
use otwarte_dane_transportow.Common.{
  ℕ, suc, ◌+◌, ◌≤◌, ◌<◌, ◌≡◌, ◌≢◌, refl, Bool, true, false, some, List, [], ◌∷◌, map, any, All,
  arith, ◌==◌, ==_iff, if-cases, Bool-cases, inl, inr,
}
use mathlib.Core.Path.{subst}
use otwarte_dane_transportow.Builds.Rows.{row_at, update_row}

-- Keys are below the next one, and no two rows share one.
abbrev pub HasKeys : ℕ → List ℕ → Type 0
HasKeys n [] = Unit {0}
HasKeys n (k ∷ ks) = (k < n) × All (λ (j : ℕ). j ≢ k) ks × HasKeys n ks

pub next_fresh : (n : ℕ) (ks : List ℕ) → HasKeys n ks → All (λ (j : ℕ). j ≢ n) ks
next_fresh n [] h = tt
next_fresh n (k ∷ ks) (low, other, rest) = (omega arith, next_fresh n ks rest)

pub raise-HasKeys : (n : ℕ) (ks : List ℕ) → HasKeys n ks → HasKeys (suc n) ks
raise-HasKeys n [] h = tt
raise-HasKeys n (k ∷ ks) (low, other, rest) = (omega arith, other, raise-HasKeys n ks rest)

abbrev pub one_if : Bool → ℕ
one_if true = 1
one_if false = 0

module _ {A : Type 0} where
  abbrev pub count_rows : (A → Bool) → List A → ℕ
  count_rows p [] = 0
  count_rows p (r ∷ rs) = one_if (p r) + count_rows p rs

  pub any-count_rows : (p : A → Bool) (rs : List A) → any p rs ≡ false → count_rows p rs ≡ 0
  any-count_rows p [] h = refl
  any-count_rows p (r ∷ rs) h = ground (arith, any-count_rows p rs)

module _ {A : Type 0} (p : A → Bool) where
  pub count_rows-map-le :
      (f : A → A) (rs : List A)
      → ((r : A) → p (f r) ≡ true → p r ≡ true)
      → count_rows p (map f rs) ≤ count_rows p rs
  count_rows-map-le f [] h = omega arith
  count_rows-map-le f (r ∷ rs) h = ground (arith, h r, count_rows-map-le f rs h)

  pub count_rows-map-zero :
      (f : A → A) (rs : List A) → ((r : A) → p (f r) ≡ false) → count_rows p (map f rs) ≡ 0
  count_rows-map-zero f [] h = refl
  count_rows-map-zero f (r ∷ rs) h = ground (arith, h r, count_rows-map-zero f rs h)

module _ {A : Type 0} (key : A → ℕ) where
  pub map-update_row :
      (id : ℕ) (f : A → A) (rs : List A)
      → ((r : A) → key (f r) ≡ key r)
      → map key (update_row key id f rs) ≡ map key rs
  map-update_row id f [] h = refl
  map-update_row id f (r ∷ rs) h = ground (arith, h r, map-update_row id f rs h)

  pub map-map :
      (f : A → A) (rs : List A) → ((r : A) → key (f r) ≡ key r) → map key (map f rs) ≡ map key rs
  map-map f [] h = refl
  map-map f (r ∷ rs) h = ground (arith, h r, map-map f rs h)

  pub row_at-key : (id : ℕ) (rs : List A) (r : A) → row_at key id rs ≡ some r → key r ≡ id
  row_at-key id [] r h = cc
  row_at-key id (x ∷ rs) r h = elim (if-cases (key x == id) (some x) (row_at key id rs) h) [
    | inl (e, found) ↦ let same = (==_iff (key x) id).0 e in cc
    | inr (e, found) ↦ row_at-key id rs r found
  ]

  module _ (p : A → Bool) where
    -- An update that makes the test true of no row makes it true of no more rows.
    pub count_rows-update_row-le :
        (id : ℕ) (f : A → A) (rs : List A)
        → ((r : A) → p (f r) ≡ true → p r ≡ true)
        → count_rows p (update_row key id f rs) ≤ count_rows p rs
    count_rows-update_row-le id f [] h = omega arith
    count_rows-update_row-le id f (r ∷ rs) h =
        ground (arith, h r, count_rows-update_row-le id f rs h)

    -- A key that no row has.
    pub count_rows-update_row-none :
        (id : ℕ) (f : A → A) (rs : List A)
        → All (λ (j : ℕ). j ≢ id) (map key rs)
        → count_rows p (update_row key id f rs) ≡ count_rows p rs
    count_rows-update_row-none id f [] h = refl
    count_rows-update_row-none id f (r ∷ rs) (h, hs) =
        ground (arith, count_rows-update_row-none id f rs hs)

    -- The row that was found passed the test before the update.
    pub count_rows-update_row-found :
        (id n : ℕ) (f : A → A) (rs : List A) (r : A)
        → HasKeys n (map key rs)
        → row_at key id rs ≡ some r
        → p r ≡ true
        → count_rows p (update_row key id f rs) ≤ count_rows p rs
    count_rows-update_row-found id n f [] r h q g = omega arith
    count_rows-update_row-found id n f (x ∷ rs) r (low, other, rest) q g =
        elim (if-cases (key x == id) (some x) (row_at key id rs) q) [
          | inl (e, found) ↦
              let others : All (λ (j : ℕ). j ≢ id) (map key rs) =
                subst (λ (k : ℕ). All (λ (j : ℕ). j ≢ k) (map key rs)) ((==_iff (key x) id).0 e)
                  other in
              let passed : p x ≡ true = cc in
              ground (arith, count_rows-update_row-none id f rs others)
          | inr (e, found) ↦
              rw e (ground (arith, count_rows-update_row-found id n f rs r rest found g))
        ]

    -- With the test off everywhere, one key switches it on once at most.
    pub count_rows-update_row-one :
        (id n : ℕ) (f : A → A) (rs : List A)
        → HasKeys n (map key rs)
        → count_rows p rs ≡ 0
        → count_rows p (update_row key id f rs) ≤ 1
    count_rows-update_row-one id n f [] h z = omega arith
    count_rows-update_row-one id n f (x ∷ rs) (low, other, rest) z =
        elim (Bool-cases (key x == id)) [
          | inl e ↦
              let others : All (λ (j : ℕ). j ≢ id) (map key rs) =
                subst (λ (k : ℕ). All (λ (j : ℕ). j ≢ k) (map key rs)) ((==_iff (key x) id).0 e)
                  other in
              ground (arith, count_rows-update_row-none id f rs others)
          | inr e ↦ rw e (ground (arith, count_rows-update_row-one id n f rs rest))
        ]
