-- ===== src/Prelude/Table.antt =====
-- A table of the database: its rows under a numeric primary key. `find_by` is SELECT by key,
-- `update_by` is UPDATE by key, and `insert_row` is INSERT, which a second row of the same key fails.
use Prim.Native.Nat.{ℕ}
use mathlib.Core.Path.{◌≡◌, refl, sym, subst}
use mathlib.Core.Option.{Option, none, some}
use mathlib.Core.Option
use mathlib.Core.Logic.{◌≢◌, inl, inr}
use mathlib.Core.List.{List, [], ◌∷◌}
use native.Mathlib.Omega.{arith}
use vps_billing_gemini.Prelude.Tests.{◌==◌, if◌then◌else◌, Bool-cases, Option-cases, ==-refl}
use vps_billing_gemini.Prelude.Lists.{All, All-imp}
use vps_billing_gemini.Prelude.Int.{◌≤ℤ◌, int_laws, ℤ, pos, ◌+ℤ◌, +ℤ_exchange, +ℤ_frame}

module _ {A : Type 0} (key : A → ℕ) where
  abbrev pub find_by : ℕ → List A → Option A
  find_by k [] = none
  find_by k (r ∷ t) = if key r == k then some r else find_by k t

  abbrev pub update_by : ℕ → (A → A) → List A → List A
  update_by k f [] = []
  update_by k f (r ∷ t) = (if key r == k then f r else r) ∷ update_by k f t

  abbrev pub insert_row : A → List A → Option (List A)
  insert_row r t = elim (find_by (key r) t) [ none ↦ some (r ∷ t) | some _ ↦ none ]

  -- No two rows share a key.
  abbrev pub IsKeyed : List A → Type 0
  IsKeyed [] = Unit
  IsKeyed (r ∷ t) = (find_by (key r) t ≡ none) × IsKeyed t

-- The sum of a column.
module _ {A : Type 0} where
  abbrev pub total_of : (A → ℤ) → List A → ℤ
  total_of w [] = pos 0
  total_of w (r ∷ t) = w r +ℤ total_of w t

module _ {A : Type 0} (key : A → ℕ) (f : A → A) (keeps : (r : A) → key (f r) ≡ key r) where
  pub find_by-update_by :
      (j k : ℕ) (t : List A)
      → find_by key j (update_by key k f t)
        ≡ (if j == k then Option.map f (find_by key j t) else find_by key j t)
  find_by-update_by j k [] = ground arith
  find_by-update_by j k (r ∷ t) = ground (arith, keeps r, find_by-update_by j k t)

  pub find_by-update_by_self :
      (k : ℕ) (t : List A) (r : A)
      → find_by key k t ≡ some r
      → find_by key k (update_by key k f t) ≡ some (f r)
  find_by-update_by_self k t r h = ground (arith, find_by-update_by k k t)

  pub update_by-IsKeyed : (k : ℕ) (t : List A) → IsKeyed key t → IsKeyed key (update_by key k f t)
  update_by-IsKeyed k [] h = tt
  update_by-IsKeyed k (r ∷ t) h =
      ground (arith, keeps r, find_by-update_by (key r) k t, update_by-IsKeyed k t h.1)

  -- A row found after an UPDATE is the row found before it, changed if it is of the updated key.
  pub found-update_by :
      (j k : ℕ) (t : List A) (r' : A)
      → find_by key j (update_by key k f t) ≡ some r'
      → (r : A) × (find_by key j t ≡ some r) × (r' ≡ (if j == k then f r else r))
  found-update_by j k t r' h = elim (Option-cases (find_by key j t)) [
    | inl absent ↦ absurd (ground (arith, find_by-update_by j k t))
    | inr (r, there) ↦ (r, there, ground (arith, find_by-update_by j k t))
  ]

module _ {A : Type 0} (key : A → ℕ) where
  pub key-find_by : (k : ℕ) (t : List A) (r : A) → find_by key k t ≡ some r → key r ≡ k
  key-find_by k [] r h = cc
  key-find_by k (x ∷ t) r h = ground (arith, key-find_by k t r)

  pub find_by_own :
      (k : ℕ) (t : List A) (r : A) → find_by key k t ≡ some r → find_by key (key r) t ≡ some r
  find_by_own k t r h = subst (λ j. find_by key j t ≡ some r) (sym (key-find_by k t r h)) h

  pub update_by_absent :
      (f : A → A) (k : ℕ) (t : List A) → find_by key k t ≡ none → update_by key k f t ≡ t
  update_by_absent f k [] h = refl
  update_by_absent f k (r ∷ t) h = ground (arith, update_by_absent f k t)

  pub insert_row-IsKeyed :
      (r : A) (t t' : List A) → IsKeyed key t → insert_row key r t ≡ some t' → IsKeyed key t'
  insert_row-IsKeyed r t t' u h = ground arith

  -- Updating the one row of a key changes a sum by that row alone.
  pub total_of-update_by :
      (w : A → ℤ) (f : A → A) (k : ℕ) (t : List A) (r : A)
      → IsKeyed key t
      → find_by key k t ≡ some r
      → total_of w (update_by key k f t) +ℤ w r ≡ total_of w t +ℤ w (f r)
  total_of-update_by w f k [] r u h = cc
  total_of-update_by w f k (x ∷ t) r u h = elim (Bool-cases (key x == k)) [
    | inl here ↦
        let e : x ≡ r = ground arith in
        let absent : find_by key k t ≡ none = ground (arith, u.0) in
        rw (here, update_by_absent f k t absent, e) (+ℤ_exchange (w (f r)) (total_of w t) (w r))
    | inr there ↦ rw there (
        +ℤ_frame (w x) (total_of w (update_by key k f t)) (w r) (total_of w t) (w (f r))
          (total_of-update_by w f k t r u.1 (ground arith)))
  ]

module _ {κ} {A : Type 0} (P : A → Type κ) (key : A → ℕ) where
  pub All-update_by :
      (f : A → A)
      → ((r : A) → P r → P (f r))
      → (k : ℕ) (t : List A) → All P t
      → All P (update_by key k f t)
  All-update_by f keeps k [] h = tt
  All-update_by f keeps k (r ∷ t) h = ground (arith, keeps r h.0, All-update_by f keeps k t h.1)

  pub All-find_by : (k : ℕ) (t : List A) (r : A) → All P t → find_by key k t ≡ some r → P r
  All-find_by k [] r a h = cc
  All-find_by k (x ∷ t) r a h = elim (Bool-cases (key x == k)) [
    | inl here ↦ subst P (ground arith) a.0
    | inr there ↦ All-find_by k t r a.1 (ground arith)
  ]

module _ {κ} {A : Type 0} (P : A → Type κ) where
  pub total_of_nonneg :
      (w : A → ℤ) → ((r : A) → P r → pos 0 ≤ℤ w r) → (t : List A) → All P t → pos 0 ≤ℤ total_of w t
  total_of_nonneg w nonneg [] h = omega arith
  total_of_nonneg w nonneg (r ∷ t) h =
      omega (int_laws, nonneg r h.0, total_of_nonneg w nonneg t h.1)

-- What holds of the updated row and of every other row holds of each row found after an UPDATE.
module _ {κ} {A : Type 0} (P : A → Type κ) (key : A → ℕ) where
  pub each-update_by :
      (f : A → A)
      → ((r : A) → key (f r) ≡ key r)
      → (k : ℕ) (t : List A) → ((r : A) → find_by key k t ≡ some r → P (f r))
      → ((r : A) → find_by key (key r) t ≡ some r → k ≢ key r → P r)
      → (j : ℕ) (r' : A) → find_by key j (update_by key k f t) ≡ some r'
      → P r'
  each-update_by f keeps k t hit miss j r' h =
      let (r, before, changed) = found-update_by key f keeps j k t r' h in
      let at : key r ≡ j = key-find_by key j t r before in
      elim (Bool-cases (j == k)) [
        | inl here ↦ subst P (ground arith) (hit r (ground arith))
        | inr away ↦ subst P (ground arith) (miss r (rw at before) (ground arith))
      ]

module _ {A : Type 0} (key : A → ℕ) where
  found_below :
      (r : A) (t : List A)
      → find_by key (key r) t ≡ none
      → (x : A) → find_by key (key x) t ≡ some x
      → find_by key (key x) (r ∷ t) ≡ some x
  found_below r t absent x there = ground arith

  -- Every row of a table is found under its key.
  pub All-found : (t : List A) → IsKeyed key t → All (λ r. find_by key (key r) t ≡ some r) t
  All-found [] h = tt
  All-found (r ∷ t) h = (rw ==-refl refl, All-imp _ _ (found_below r t h.0) t (All-found t h.1))
