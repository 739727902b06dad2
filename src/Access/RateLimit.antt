-- ===== src/Access/RateLimit.antt =====
-- MemoryRateLimiter of backend/internal/middleware/rate_limit.go. Its two maps have the same keys, so they
-- are one function from a key to the count and the end of its window.
use vps_billing_gemini.Prelude.{
  ℕ, suc, ◌+◌, ◌-◌, ◌≡◌, refl, Bool, true, false, List, [], ◌∷◌, Option, none, some, String, str_eq,
  eq_iff, if◌then◌else◌, ltb, leb, arith, All, length, inl, inr, Option-cases, ap,
}

pub record Window : Type 0 where
  pub count : ℕ
  pub expires : ℕ

abbrev pub Counters : Type 0
Counters = String → Option Window

abbrev pub put : String → Window → Counters → Counters
put key w counters other = if str_eq key other then some w else counters other

unfoldable pub allow : ℕ → String → ℕ → ℕ → Counters → Bool × Counters
allow now key limit window counters =
    let first : Bool × Counters =
      (true, put key (record { count = 1; expires = now + window }) counters) in
    elim (counters key) [
      | none ↦ first
      | some w ↦
          let count = w.count + 1 in
          if ltb w.expires now
          then first
          else (leb count limit, put key (record { count = count; expires = w.expires }) counters)
    ]

-- How many of the requests under a key, made at these moments, are allowed.
unfoldable pub count_allowed : String → ℕ → ℕ → List ℕ → Counters → ℕ
unfolding allow
count_allowed key limit window [] counters = 0
count_allowed key limit window (now ∷ later) counters =
    let out = allow now key limit window counters in
    let rest = count_allowed key limit window later out.1 in if out.0 then suc rest else rest

abbrev pub lesser : ℕ → ℕ → ℕ
lesser a b = if leb a b then a else b

abbrev pub stored : Option Window → List Window
stored none = []
stored (some w) = w ∷ []

put_self : (key : String) (w : Window) (counters : Counters) → put key w counters key ≡ some w
put_self key w counters = rw ((eq_iff key key).1 refl) refl

allow_inside :
    (now : ℕ) (key : String) (limit window : ℕ) (w : Window) (counters : Counters)
    → counters key ≡ some w
    → ltb w.expires now ≡ false
    → allow now key limit window counters ≡ (
      leb (w.count + 1) limit,
      put key (record { count = w.count + 1; expires = w.expires }) counters,
    )
unfolding allow
allow_inside now key limit window w counters here inside = rw (allow, here, inside) refl

allow_first :
    (now : ℕ) (key : String) (limit window : ℕ) (counters : Counters)
    → All (λ w. ltb w.expires now ≡ true) (stored (counters key))
    → allow now key limit window counters
      ≡ (true, put key (record { count = 1; expires = now + window }) counters)
unfolding allow
allow_first now key limit window counters fresh = elim (Option-cases (counters key)) [
  | inl absent ↦ rw (allow, absent) refl
  | inr (w, here) ↦
      let over : ltb w.expires now ≡ true = (rw here at fresh).0 in rw (allow, here, over) refl
]

module _ (key : String) (limit window : ℕ) where
  in_window :
      (w : Window) (counters : Counters) (later : List ℕ)
      → counters key ≡ some w
      → All (λ now. ltb w.expires now ≡ false) later
      → count_allowed key limit window later counters ≡ lesser (length later) (limit - w.count)
  unfolding count_allowed
  in_window w counters [] here inside = ground arith
  in_window w counters (now ∷ later) here inside =
      let next : Window = record { count = w.count + 1; expires = w.expires } in
      let rest =
        in_window next (put key next counters) later (put_self key next counters) inside.1 in
      rw (allow_inside now key limit window w counters here inside.0, rest) (ground arith)

-- From a moment at which no window of the key is open, the number of requests that are allowed until
-- the window that the first one opens is over is exact: the first one, and of the others as many as
-- the limit leaves. So at most the limit passes, or one request when the limit is 0.
pub count_allowed-lesser :
    (key : String) (limit window now : ℕ) (later : List ℕ) (counters : Counters)
    → All (λ w. ltb w.expires now ≡ true) (stored (counters key))
    → All (λ t. ltb (now + window) t ≡ false) later
    → count_allowed key limit window (now ∷ later) counters
      ≡ suc (lesser (length later) (limit - 1))
unfolding count_allowed
count_allowed-lesser key limit window now later counters fresh inside =
    let w : Window = record { count = 1; expires = now + window } in
    rw (allow_first now key limit window counters fresh) (
      ap suc
        (in_window key limit window w (put key w counters) later (put_self key w counters) inside))
