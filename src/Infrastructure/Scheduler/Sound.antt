-- ===== src/Infrastructure/Scheduler/Sound.antt =====
-- SelectAndReserve keeps the accounts of the nodes.
use vps_billing_gemini.Prelude.{
  ℕ, suc, Bool, true, false, List, [], ◌∷◌, inl, inr, Result, ok, err, Bool-cases, ◌+◌,
}
use vps_billing_gemini.Prelude.Int.{ℤ, pos, ◌≤ℤ◌}
use vps_billing_gemini.Infrastructure.Model.{Error, Node, Reservation}
use vps_billing_gemini.Infrastructure.Store.{Tables}
use vps_billing_gemini.Infrastructure.Reserve.{reserve_resources}
use vps_billing_gemini.Infrastructure.Capacity.Invariant.{Resource, IsNonneg, IsSound}
use vps_billing_gemini.Infrastructure.Capacity.Reserving.{reserve_resources-IsSound}
use vps_billing_gemini.Infrastructure.Scheduler.{
  Floats, World, Requirements, reservation_on, try_candidates, select_and_reserve, candidates,
  list_nodes, effective_ttl, after_attempt, can_try_next,
}

abbrev pub asked : Resource → Requirements → ℤ
asked Resource.cpu req = req.cpu_cores
asked Resource.memory req = req.memory_mb
asked Resource.disk req = req.disk_gb

asked-IsNonneg :
    (req : Requirements)
    → ((k : Resource) → pos 0 ≤ℤ asked k req)
    → (id expires_at : ℕ) (n : Node) → IsNonneg (reservation_on req id expires_at n)
unfolding reservation_on
asked-IsNonneg req h id expires_at n Resource.cpu = h Resource.cpu
asked-IsNonneg req h id expires_at n Resource.memory = h Resource.memory
asked-IsNonneg req h id expires_at n Resource.disk = h Resource.disk

module _ (base : Resource → ℕ → ℤ) (world : World) (req : Requirements)
    (meanwhile : (i : ℕ) (db : Tables) → IsSound base db → IsSound base (world.meanwhile i db))
    (nonneg : (k : Resource) → pos 0 ≤ℤ asked k req) where
  after-IsSound :
      (n : Node) (r : Result Error Reservation) (db : Tables)
      (rest : Result Error (Reservation × Node) × Tables)
      → IsSound base db
      → IsSound base rest.1
      → IsSound base (after_attempt n r db rest).1
  after-IsSound n (ok row) db rest h later = h
  after-IsSound n (err e) db rest h later = elim (Bool-cases (can_try_next e)) [
    | inl again ↦ rw again later
    | inr stop ↦ rw stop h
  ]

  try-IsSound :
      (expires_at : ℕ) (ns : List Node) (i : ℕ) (db : Tables)
      → IsSound base db
      → IsSound base (try_candidates world req expires_at ns i db).1
  unfolding try_candidates
  try-IsSound expires_at [] i db h = h
  try-IsSound expires_at (n ∷ ns) i db h =
      let row = reservation_on req (world.fresh i) expires_at n in
      let attempt = reserve_resources (world.fails i) row (world.meanwhile i db) in
      let kept =
        reserve_resources-IsSound base (world.fails i) row (world.meanwhile i db)
          (asked-IsNonneg req nonneg (world.fresh i) expires_at n) (meanwhile i db h) in
      after-IsSound n attempt.0 attempt.1 (try_candidates world req expires_at ns (suc i) attempt.1)
        kept (try-IsSound expires_at ns (suc i) attempt.1 kept)

  -- A choice of a node keeps the accounts exact, whatever fails, if what others do meanwhile does.
  pub select_and_reserve-IsSound :
      (floats : Floats) (list_fails : Bool) (now : ℕ) (db : Tables)
      → IsSound base db
      → IsSound base (select_and_reserve floats world list_fails now req db).1
  unfolding select_and_reserve
  select_and_reserve-IsSound floats true now db h = h
  select_and_reserve-IsSound floats false now db h =
      try-IsSound (now + effective_ttl req.ttl)
        (candidates floats req (list_nodes req.node_group_id db.nodes)) 0 db h
