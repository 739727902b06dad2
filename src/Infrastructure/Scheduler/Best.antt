-- ===== src/Infrastructure/Scheduler/Best.antt =====
-- With no failure and no other worker at the same time, SelectAndReserve takes the best node.
use vps_billing_gemini.Prelude.{
  ℕ, ◌+◌, ◌≡◌, refl, sym, subst, true, false, inl, inr, none, some, List, [], ◌∷◌, ok, err, All,
  All-filter, All-sort_by, All-insert_sorted, All-sort_by_inv, filter-holds, filter, sort_by,
  insert_sorted, arith, Bool-cases, ◌⊎◌, Result, Bool, IsAmong, ==-refl, ◌%◌, ◌==◌,
}
use vps_billing_gemini.Prelude.Int.{ℤ, pos}
use vps_billing_gemini.Prelude.Table.{IsKeyed, All-found}
use vps_billing_gemini.Infrastructure.Model.{Error, no_schedulable_node, Node, Reservation}
use vps_billing_gemini.Infrastructure.Store.{
  Tables, find_node, find_reservation, create_resource_reservation,
}
use vps_billing_gemini.Infrastructure.Reserve.{reserve_resources}
use vps_billing_gemini.Infrastructure.Scheduler.{
  Floats, Requirements, World, list_nodes, has_capacity, candidates, ranks_before, reservation_on,
  score, try_candidates, select_and_reserve, effective_ttl,
}
use vps_billing_gemini.Infrastructure.Scheduler.Chosen.{All-list_nodes}

-- What IEEE 754 says of comparisons between numbers that are not NaN.
pub record Comparable (floats : Floats) (IsNumber : floats.Float → Type 0) : Type 0 where
  pub asym :
      (a b : floats.Float)
      → IsNumber a
      → IsNumber b
      → floats.less a b ≡ true
      → floats.less b a ≡ false
  pub trans :
      (a b c : floats.Float)
      → IsNumber a
      → IsNumber b
      → IsNumber c
      → floats.less a b ≡ false
      → floats.less b c ≡ false
      → floats.less a c ≡ false
  pub equal :
      (a b : floats.Float)
      → IsNumber a
      → IsNumber b
      → floats.eqb a b ≡ true
      → (floats.less a b ≡ false) × (floats.less b a ≡ false)

module _ (floats : Floats) (IsNumber : floats.Float → Type 0)
    (laws : Comparable floats IsNumber) where
  -- The first of two nodes is not worse than the second.
  abbrev Beats : Node → Node → Type 0
  Beats a b = floats.less (score floats a) (score floats b) ≡ false

  abbrev Scored : Node → Type 0
  Scored n = IsNumber (score floats n)

  -- No node stands in front of a better one.
  abbrev Descending : List Node → Type 0
  Descending [] = Unit
  Descending (n ∷ ns) = All (Beats n) ns × Descending ns

  before-Beats : (a b : Node) → Scored a → Scored b → ranks_before floats a b ≡ true → Beats a b
  unfolding ranks_before
  before-Beats a b ha hb h = ground (
    arith,
    laws.asym (score floats b) (score floats a) hb ha,
    laws.equal (score floats a) (score floats b) ha hb,
  )

  after-Beats : (a b : Node) → Scored a → Scored b → ranks_before floats a b ≡ false → Beats b a
  unfolding ranks_before
  after-Beats a b ha hb h = ground (arith, laws.equal (score floats a) (score floats b) ha hb)

  All-Beats :
      (x y : Node) (zs : List Node)
      → Scored x
      → Scored y
      → Beats x y
      → All Scored zs
      → All (Beats y) zs
      → All (Beats x) zs
  All-Beats x y [] hx hy b hs d = tt
  All-Beats x y (z ∷ zs) hx hy b hs d = (
    laws.trans (score floats x) (score floats y) (score floats z) hx hy hs.0 b d.0,
    All-Beats x y zs hx hy b hs.1 d.1,
  )

  insert-Descending :
      (x : Node) (xs : List Node)
      → Scored x
      → All Scored xs
      → Descending xs
      → Descending (insert_sorted (ranks_before floats) x xs)
  insert-Descending x [] hx hs d = (tt, tt)
  insert-Descending x (y ∷ ys) hx hs d = elim (Bool-cases (ranks_before floats x y)) [
    | inl front ↦
        let first = before-Beats x y hx hs.0 front in
        rw front ((first, All-Beats x y ys hx hs.0 first hs.1 d.0), d)
    | inr behind ↦ rw behind (
      All-insert_sorted (Beats y) (ranks_before floats) x ys (after-Beats x y hx hs.0 behind) d.0,
      insert-Descending x ys hx hs.1 d.1,
    )
  ]

  sort-Descending : (xs : List Node) → All Scored xs → Descending (sort_by (ranks_before floats) xs)
  sort-Descending [] h = tt
  sort-Descending (x ∷ xs) h =
      insert-Descending x (sort_by (ranks_before floats) xs) h.0
        (All-sort_by Scored (ranks_before floats) xs h.1) (sort-Descending xs h.1)

  Beats-refl : (n : Node) → Scored n → Beats n n
  Beats-refl n h = ground (arith, laws.asym (score floats n) (score floats n) h h)

  -- The first of the sorted candidates is not worse than any candidate.
  head-Beats :
      (xs : List Node) (n : Node) (ns : List Node)
      → All Scored xs
      → sort_by (ranks_before floats) xs ≡ n ∷ ns
      → All (Beats n) xs
  head-Beats xs n ns h e =
      let scored = subst (All Scored) e (All-sort_by Scored (ranks_before floats) xs h) in
      let down = subst Descending e (sort-Descending xs h) in
      All-sort_by_inv (Beats n) (ranks_before floats) xs
        (subst (All (Beats n)) (sym e) (Beats-refl n scored.0, down.0))

-- A whole number of cores, given in hundredths, on which float64 is exact.
abbrev pub is_whole : ℤ → Bool
is_whole (pos n) = n % 100 == 0
is_whole _ = false

abbrev pub HasWholeCores : Node → Type 0
HasWholeCores n =
    (is_whole n.cpu_total ≡ true)
    × (is_whole n.cpu_allocated ≡ true)
    × (is_whole n.cpu_reserved ≡ true)

-- Nothing fails, and no other worker commits anything.
abbrev pub quiet : (ℕ → ℕ) → World
quiet fresh = record { fails = λ i k. false; fresh = fresh; meanwhile = λ i db. db }

-- In a quiet world the reservation on a suitable node succeeds.
quiet_reserve :
    (req : Requirements) (id expires_at : ℕ) (n : Node) (db : Tables)
    → find_node n.id db.nodes ≡ some n
    → has_capacity req n ≡ true
    → find_reservation id db.reservations ≡ none
    → (reserve_resources (λ k. false) (reservation_on req id expires_at n) db).0
      ≡ ok (reservation_on req id expires_at n)
unfolding reserve_resources reservation_on has_capacity create_resource_reservation
quiet_reserve req id expires_at n db there fit fresh = ground arith

quiet_stored :
    (req : Requirements) (id expires_at : ℕ) (n : Node) (db : Tables)
    → find_node n.id db.nodes ≡ some n
    → has_capacity req n ≡ true
    → find_reservation id db.reservations ≡ none
    → find_reservation id
        (reserve_resources (λ k. false) (reservation_on req id expires_at n) db).1.reservations
      ≡ some (reservation_on req id expires_at n)
unfolding reserve_resources reservation_on has_capacity create_resource_reservation
quiet_stored req id expires_at n db there fit fresh = ground (arith, ==-refl id)

-- What a sorted list holds stands in the list.
insert-IsAmong :
    (before : Node → Node → Bool) (n x : Node) (xs : List Node)
    → IsAmong n (insert_sorted before x xs)
    → (n ≡ x) ⊎ IsAmong n xs
insert-IsAmong before n x [] h = h
insert-IsAmong before n x (y ∷ ys) h = elim (Bool-cases (before x y)) [
  | inl front ↦ rw front at h
  | inr behind ↦ elim (rw behind at h) [
    | inl same ↦ inr (inl same)
    | inr later ↦ elim (insert-IsAmong before n x ys later) [
      | inl own ↦ inl own
      | inr there ↦ inr (inr there)
    ]
  ]
]

sort-IsAmong :
    (before : Node → Node → Bool) (n : Node) (xs : List Node)
    → IsAmong n (sort_by before xs)
    → IsAmong n xs
sort-IsAmong before n [] h = h
sort-IsAmong before n (x ∷ xs) h = elim (insert-IsAmong before n x (sort_by before xs) h) [
  | inl own ↦ inl own
  | inr there ↦ inr (sort-IsAmong before n xs there)
]

nothing_suitable : (xs : List Node) → All (λ n. ⊥) xs → xs ≡ []
nothing_suitable [] h = refl
nothing_suitable (x ∷ xs) h = absurd h.0

-- The listed nodes that are active and have room for the request.
abbrev pub suitable : Requirements → Tables → List Node
suitable req db = filter (has_capacity req) (list_nodes req.node_group_id db.nodes)

module _ (floats : Floats) (fresh : ℕ → ℕ) (now : ℕ) (req : Requirements) (db : Tables) where
  abbrev pub result : Result Error (Reservation × Node) × Tables
  result = select_and_reserve floats (quiet fresh) false now req db

  abbrev pub asked_on : Node → Reservation
  asked_on n = reservation_on req (fresh 0) (now + effective_ttl req.ttl) n

  abbrev pub IsBest : Node → Type 0
  IsBest n =
      IsAmong n (suitable req db)
      × All (λ m. floats.less (score floats n) (score floats m) ≡ false) (suitable req db)
      × (result.0 ≡ ok (asked_on n, n))
      × (find_reservation (fresh 0) result.1.reservations ≡ some (asked_on n))

  abbrev pub IsDecided : Type 0
  IsDecided =
      ((suitable req db ≡ []) × (result ≡ (err no_schedulable_node, db))) ⊎ ((n : Node) × IsBest n)

module _ (floats : Floats) (IsNumber : floats.Float → Type 0) (laws : Comparable floats IsNumber)
    (fresh : ℕ → ℕ) (now : ℕ) (req : Requirements) (db : Tables) where
  decide_sorted :
      (sorted : List Node)
      → sort_by (ranks_before floats) (suitable req db) ≡ sorted
      → find_reservation (fresh 0) db.reservations ≡ none
      → All (λ n. IsNumber (score floats n)) (suitable req db)
      → All (λ n. find_node n.id db.nodes ≡ some n) (suitable req db)
      → IsDecided floats fresh now req db
  unfolding select_and_reserve candidates try_candidates
  decide_sorted [] e unused numbers found = inl (
    nothing_suitable (suitable req db) (
        All-sort_by_inv (λ n. ⊥) (ranks_before floats) (suitable req db)
          (subst (All (λ n. ⊥)) (sym e) tt)),
    rw e,
  )
  decide_sorted (n ∷ ns) e unused numbers found =
      let there =
        subst (All (λ m. find_node m.id db.nodes ≡ some m)) e
          (All-sort_by _ (ranks_before floats) (suitable req db) found) in
      let fits = subst (All (λ m. has_capacity req m ≡ true)) e (
        All-sort_by _ (ranks_before floats) (suitable req db)
          (filter-holds (has_capacity req) (list_nodes req.node_group_id db.nodes))) in
      inr (
        n,
        (
          sort-IsAmong (ranks_before floats) n (suitable req db)
              (subst (IsAmong n) (sym e) (inl refl)),
          head-Beats floats IsNumber laws (suitable req db) n ns numbers e,
          rw (
            e,
            quiet_reserve req (fresh 0) (now + effective_ttl req.ttl) n db there.0 fits.0 unused,
          ),
          rw
              (
                e,
                quiet_reserve req (fresh 0) (now + effective_ttl req.ttl) n db there.0 fits.0
                    unused,
              )
              (quiet_stored req (fresh 0) (now + effective_ttl req.ttl) n db there.0 fits.0 unused),
        ),
      )

-- With no failure and no other worker, SelectAndReserve decides: either no listed node is active with
-- room for every amount, and it returns the error of no schedulable node with nothing changed, or it
-- returns a listed node with room that no listed node with room beats by its score, and the reservation
-- on it that is asked for, which is stored. The scores have to be numbers (not NaN), the id of the
-- reservation unused, and the CPU counters of the nodes and of the request whole cores, which float64
-- subtracts and compares exactly.
pub select_and_reserve_best :
    (floats : Floats) (IsNumber : floats.Float → Type 0) (laws : Comparable floats IsNumber)
    (fresh : ℕ → ℕ) (now : ℕ) (req : Requirements) (db : Tables)
    → IsKeyed Node.id db.nodes
    → find_reservation (fresh 0) db.reservations ≡ none
    → All (λ n. IsNumber (score floats n)) db.nodes
    → All HasWholeCores db.nodes
    → is_whole req.cpu_cores ≡ true
    → IsDecided floats fresh now req db
select_and_reserve_best floats IsNumber laws fresh now req db keyed unused numbers nodes_whole
      asked_whole =
    let in_list =
      All-list_nodes (λ n. IsNumber (score floats n)) req.node_group_id db.nodes numbers in
    let found =
      All-list_nodes (λ m. find_node m.id db.nodes ≡ some m) req.node_group_id db.nodes
        (All-found Node.id db.nodes keyed) in
    decide_sorted floats IsNumber laws fresh now req db
      (sort_by (ranks_before floats) (suitable req db)) refl unused
      (All-filter _ (has_capacity req) _ in_list) (All-filter _ (has_capacity req) _ found)
