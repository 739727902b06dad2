-- ===== src/Prelude/Lists.antt =====
-- Lists measured by native numbers, filtered by Boolean tests and sorted by a Boolean order.
use Prim.Native.Nat.{ℕ, zero, suc}
use mathlib.Core.Path.{◌≡◌, refl}
use mathlib.Core.Logic.{◌⊎◌, inl, inr}
use mathlib.Core.Bool.{Bool, true, false}
use mathlib.Core.List.{List, [], ◌∷◌}
use native.Mathlib.Omega.{arith}
use vps_billing_gemini.Prelude.Tests.{if◌then◌else◌, Bool-cases}

abbrev pub IsAmong : {A : Type 0} → A → List A → Type 0
IsAmong x [] = ⊥
IsAmong x (y ∷ ys) = (x ≡ y) ⊎ IsAmong x ys

module _ {ℓ} {A : Type ℓ} where
  abbrev pub length : List A → ℕ
  length [] = 0
  length (x ∷ xs) = suc (length xs)

  abbrev pub take : ℕ → List A → List A
  take zero xs = []
  take (suc n) [] = []
  take (suc n) (x ∷ xs) = x ∷ take n xs

  abbrev pub filter : (A → Bool) → List A → List A
  filter p [] = []
  filter p (x ∷ xs) = if p x then x ∷ filter p xs else filter p xs

  -- Insertion into a sorted list; `before x y` says that x may stand in front of y.
  abbrev pub insert_sorted : (A → A → Bool) → A → List A → List A
  insert_sorted before x [] = x ∷ []
  insert_sorted before x (y ∷ ys) = if before x y then x ∷ y ∷ ys else y ∷ insert_sorted before x ys

  abbrev pub sort_by : (A → A → Bool) → List A → List A
  sort_by before [] = []
  sort_by before (x ∷ xs) = insert_sorted before x (sort_by before xs)

  -- A predicate that holds of every element.
  abbrev pub All {κ} : (A → Type κ) → List A → Type κ
  All P [] = Unit
  All P (x ∷ xs) = P x × All P xs

module _ {ℓ κ} {A : Type ℓ} (P : A → Type κ) where
  pub All-insert_sorted :
      (before : A → A → Bool) (x : A) (xs : List A)
      → P x
      → All P xs
      → All P (insert_sorted before x xs)
  All-insert_sorted before x [] h hs = (h, tt)
  All-insert_sorted before x (y ∷ ys) h hs = ground (arith, All-insert_sorted before x ys h hs.1)

  pub All-sort_by : (before : A → A → Bool) (xs : List A) → All P xs → All P (sort_by before xs)
  All-sort_by before [] h = tt
  All-sort_by before (x ∷ xs) h =
      All-insert_sorted before x (sort_by before xs) h.0 (All-sort_by before xs h.1)

  pub All-filter : (p : A → Bool) (xs : List A) → All P xs → All P (filter p xs)
  All-filter p [] h = tt
  All-filter p (x ∷ xs) h = ground (arith, All-filter p xs h.1)

module _ {ℓ κ μ} {A : Type ℓ} (P : A → Type κ) (Q : A → Type μ) where
  pub All-imp : ((x : A) → P x → Q x) → (xs : List A) → All P xs → All Q xs
  All-imp step [] h = tt
  All-imp step (x ∷ xs) h = (step x h.0, All-imp step xs h.1)

pub filter-holds {ℓ} :
    {A : Type ℓ} (p : A → Bool) (xs : List A) → All (λ x. p x ≡ true) (filter p xs)
filter-holds p [] = tt
filter-holds p (x ∷ xs) = elim (Bool-cases (p x)) [
  | inl kept ↦ rw kept (kept, filter-holds p xs)
  | inr dropped ↦ rw dropped (filter-holds p xs)
]

module _ {ℓ κ} {A : Type ℓ} (P : A → Type κ) where
  All-insert_sorted_inv :
      (before : A → A → Bool) (x : A) (xs : List A)
      → All P (insert_sorted before x xs)
      → P x × All P xs
  All-insert_sorted_inv before x [] h = (h.0, tt)
  All-insert_sorted_inv before x (y ∷ ys) h = elim (Bool-cases (before x y)) [
    | inl front ↦ let k = rw front at h in (k.0, k.1)
    | inr behind ↦
        let k = rw behind at h in let r = All-insert_sorted_inv before x ys k.1 in (r.0, (k.0, r.1))
  ]

  -- What holds of the sorted list holds of the list.
  pub All-sort_by_inv : (before : A → A → Bool) (xs : List A) → All P (sort_by before xs) → All P xs
  All-sort_by_inv before [] h = tt
  All-sort_by_inv before (x ∷ xs) h =
      let r = All-insert_sorted_inv before x (sort_by before xs) h in
      (r.0, All-sort_by_inv before xs r.1)

module _ {ℓ κ} {A : Type ℓ} (P : A → Type κ) where
  pub All-take : (n : ℕ) (xs : List A) → All P xs → All P (take n xs)
  All-take zero xs h = tt
  All-take (suc n) [] h = tt
  All-take (suc n) (x ∷ xs) h = (h.0, All-take n xs h.1)

  -- A filter that no element passes.
  pub filter_nothing :
      (p : A → Bool) → ((x : A) → P x → p x ≡ false) → (xs : List A) → All P xs → filter p xs ≡ []
  filter_nothing p never [] h = refl
  filter_nothing p never (x ∷ xs) h = rw (never x h.0) (filter_nothing p never xs h.1)

module _ {ℓ κ μ} {A : Type ℓ} (P : A → Type κ) (Q : A → Type μ) where
  pub All-both : (xs : List A) → All P xs → All Q xs → All (λ x. P x × Q x) xs
  All-both [] h k = tt
  All-both (x ∷ xs) h k = ((h.0, k.0), All-both xs h.1 k.1)
