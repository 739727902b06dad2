-- ===== src/Infrastructure/Scheduler/Chosen.antt =====
-- What SelectAndReserve returns: a suitable node of the table, with the reservation stored.
use vps_billing_gemini.Prelude.{
  ℕ, suc, ◌+◌, ◌≡◌, sym, ap, subst, Bool, true, false, inl, inr, Option, none, some, List, [], ◌∷◌,
  ok, err, All, All-filter, All-sort_by, filter-holds, filter, sort_by, arith, Bool-cases, ◌==◌,
  ◌⊎◌, Result,
}
use vps_billing_gemini.Prelude.Table.{IsKeyed, All-found}
use vps_billing_gemini.Infrastructure.Model.{Error, Node, Reservation, reserved}
use vps_billing_gemini.Infrastructure.Store.{
  Tables, find_node, find_reservation, list_active_nodes, list_nodes_by_node_group, heavier,
}
use vps_billing_gemini.Infrastructure.Reserve.{reserve_resources}
use vps_billing_gemini.Infrastructure.Capacity.Reserving.{reserve_inv}
use vps_billing_gemini.Infrastructure.Scheduler.{
  Floats, Requirements, World, list_nodes, has_capacity, candidates, ranks_before, reservation_on,
  can_try_next, after_attempt, try_candidates, select_and_reserve, effective_ttl,
}

pub record Chosen (req : Requirements) (row : Reservation) (n : Node) (after : Tables)
    : Type 0 where
  pub suitable : has_capacity req n ≡ true
  pub on_node : row.node_id ≡ n.id
  pub for_operation : row.operation_id ≡ req.operation_id
  pub cpu_asked : row.cpu_cores ≡ req.cpu_cores
  pub memory_asked : row.memory_mb ≡ req.memory_mb
  pub disk_asked : row.disk_gb ≡ req.disk_gb
  pub is_held : row.status ≡ reserved
  pub stored : find_reservation row.id after.reservations ≡ some row

attempt-Chosen :
    (fails : ℕ → Bool) (req : Requirements) (id expires_at : ℕ) (n : Node) (db : Tables)
    (row : Reservation)
    → has_capacity req n ≡ true
    → (reserve_resources fails (reservation_on req id expires_at n) db).0 ≡ ok row
    → Chosen req row n (reserve_resources fails (reservation_on req id expires_at n) db).1
unfolding reservation_on
attempt-Chosen fails req id expires_at n db row fit h =
    let (node, r) = reserve_inv fails (reservation_on req id expires_at n) db row h in
    record {
      suitable = fit;
      on_node = ap Reservation.node_id r.written;
      for_operation = ap Reservation.operation_id r.written;
      cpu_asked = ap Reservation.cpu_cores r.written;
      memory_asked = ap Reservation.memory_mb r.written;
      disk_asked = ap Reservation.disk_gb r.written;
      is_held = ap Reservation.status r.written;
      stored = rw (r.reservations_after, r.written) (ground arith);
    }

-- Success is that of this attempt or that of the rest of the loop.
after_attempt_inv :
    (m : Node) (r : Result Error Reservation) (db : Tables)
    (rest : Result Error (Reservation × Node) × Tables) (row : Reservation) (n : Node)
    → (after_attempt m r db rest).0 ≡ ok (row, n)
    → ((r ≡ ok row) × (m ≡ n) × (after_attempt m r db rest ≡ (ok (row, n), db)))
      ⊎ ((rest.0 ≡ ok (row, n)) × (after_attempt m r db rest ≡ rest))
after_attempt_inv m (ok got) db rest row n h = inl (cc, cc, cc)
after_attempt_inv m (err e) db rest row n h = elim (Bool-cases (can_try_next e)) [
  | inl again ↦ inr (rw again at h, rw again)
  | inr stop ↦ absurd (ground arith)
]

-- The node that the loop returns is on its list.
try-Chosen :
    (world : World) (req : Requirements) (expires_at : ℕ) (ns : List Node) (i : ℕ) (db : Tables)
    (row : Reservation) (n : Node) (P : Node → Type 0)
    → All (λ m. has_capacity req m ≡ true) ns
    → All P ns
    → (try_candidates world req expires_at ns i db).0 ≡ ok (row, n)
    → Chosen req row n (try_candidates world req expires_at ns i db).1 × P n
unfolding try_candidates
try-Chosen world req expires_at [] i db row n P fits ps h = cc
try-Chosen world req expires_at (m ∷ ns) i db row n P fits ps h =
    let asked = reservation_on req (world.fresh i) expires_at m in
    let attempt = reserve_resources (world.fails i) asked (world.meanwhile i db) in
    let later = try_candidates world req expires_at ns (suc i) attempt.1 in
    let rest = try-Chosen world req expires_at ns (suc i) attempt.1 row n P fits.1 ps.1 in
    elim (after_attempt_inv m attempt.0 attempt.1 later row n h) [
      | inl (good, same, e) ↦
          subst (λ x. Chosen req row n x.1 × P n) (sym e)
            (
              subst (λ c. Chosen req row c attempt.1) same
                  (attempt-Chosen (world.fails i) req (world.fresh i) expires_at m
                    (world.meanwhile i db) row fits.0 good),
              subst P same ps.0,
            )
      | inr (good, e) ↦ subst (λ x. Chosen req row n x.1 × P n) (sym e) (rest good)
    ]

pub All-list_nodes :
    (P : Node → Type 0) (group : Option ℕ) (nodes : List Node)
    → All P nodes
    → All P (list_nodes group nodes)
unfolding list_nodes list_active_nodes list_nodes_by_node_group
All-list_nodes P none nodes h = All-sort_by P heavier _ (All-filter P _ nodes h)
All-list_nodes P (some group) nodes h = elim (Bool-cases (group == 0)) [
  | inl all_groups ↦ rw all_groups (All-sort_by P heavier _ (All-filter P _ nodes h))
  | inr one_group ↦ rw one_group (All-sort_by P heavier _ (All-filter P _ nodes h))
]

-- The node that SelectAndReserve returns is an active node of the table with room for every amount
-- that is asked, and the reservation that it returns is stored on that node, in status reserved, with
-- those amounts; this holds whatever fails and whatever other workers do meanwhile.
pub select_and_reserve-Chosen :
    (floats : Floats) (world : World) (list_fails : Bool) (now : ℕ) (req : Requirements)
    (db : Tables) (row : Reservation) (n : Node)
    → IsKeyed Node.id db.nodes
    → (select_and_reserve floats world list_fails now req db).0 ≡ ok (row, n)
    → Chosen req row n (select_and_reserve floats world list_fails now req db).1
      × (find_node n.id db.nodes ≡ some n)
unfolding select_and_reserve candidates
select_and_reserve-Chosen floats world true now req db row n keyed h = cc
select_and_reserve-Chosen floats world false now req db row n keyed h =
    let listed = list_nodes req.node_group_id db.nodes in
    let found =
      All-list_nodes (λ m. find_node m.id db.nodes ≡ some m) req.node_group_id db.nodes
        (All-found Node.id db.nodes keyed) in
    try-Chosen world req (now + effective_ttl req.ttl)
      (sort_by (ranks_before floats) (filter (has_capacity req) listed)) 0 db row n
      (λ m. find_node m.id db.nodes ≡ some m)
      (All-sort_by _ (ranks_before floats) _ (filter-holds (has_capacity req) listed))
      (All-sort_by _ (ranks_before floats) _ (All-filter _ (has_capacity req) listed found)) h
