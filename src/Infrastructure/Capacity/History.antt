-- ===== src/Infrastructure/Capacity/History.antt =====
-- Transactions of several workers one after the other, in any order and with any failures.
use vps_billing_gemini.Prelude.{ℕ, ◌≡◌, Bool, some}
use vps_billing_gemini.Prelude.Int.{ℤ, ◌+ℤ◌, ◌≤ℤ◌}
use vps_billing_gemini.Infrastructure.Model.{Node, Reservation}
use vps_billing_gemini.Infrastructure.Store.{Tables, find_node}
use vps_billing_gemini.Infrastructure.Reserve.{
  reserve_resources, commit_reservation, release_reservation,
}
use vps_billing_gemini.Infrastructure.Capacity.Invariant.{
  Resource, capacity, allocated_on, reserved_on, IsNonneg, IsSound,
}
use vps_billing_gemini.Infrastructure.Capacity.Reserving.{reserve_resources-IsSound}
use vps_billing_gemini.Infrastructure.Capacity.Endings.{
  commit_reservation-IsSound, release_reservation-IsSound,
}
use vps_billing_gemini.Infrastructure.Expiry.{
  reconcile_expired_reservations, reconcile_expired_reservations-IsSound,
}

-- One transaction, from its Begin to its Commit or Rollback, or one run of the reconciler.
pub data Step (db : Tables) : Tables → Type 0 where
  reserve :
      (fails : ℕ → Bool) (res : Reservation)
      → IsNonneg res
      → Step db (reserve_resources fails res db).1
  commit : (fails : ℕ → Bool) (id : ℕ) → Step db (commit_reservation fails id db).1
  release : (fails : ℕ → Bool) (id : ℕ) → Step db (release_reservation fails id db).1
  expire :
      (list_fails : Bool) (fails : ℕ → ℕ → Bool) (now : ℕ)
      → Step db (reconcile_expired_reservations list_fails fails now db).1

pub data Reach (db : Tables) : Tables → Type 0 where
  here : Reach db db
  next : {mid after : Tables} → Reach db mid → Step mid after → Reach db after

Step-IsSound :
    (base : Resource → ℕ → ℤ) (db : Tables) {after : Tables}
    → Step db after
    → IsSound base db
    → IsSound base after
Step-IsSound base db (reserve fails res h) s = reserve_resources-IsSound base fails res db h s
Step-IsSound base db (commit fails id) s = commit_reservation-IsSound base fails id db s
Step-IsSound base db (release fails id) s = release_reservation-IsSound base fails id db s
Step-IsSound base db (expire list_fails fails now) s =
    reconcile_expired_reservations-IsSound base list_fails fails now db s

-- After any transactions and runs of the reconciler that follow one another, with any failures of
-- the database among them, the counters of every node are exact again.
pub Reach-IsSound :
    (base : Resource → ℕ → ℤ) (db : Tables) {after : Tables}
    → Reach db after
    → IsSound base db
    → IsSound base after
Reach-IsSound base db here s = s
Reach-IsSound base db (next {mid = m} r st) s = Step-IsSound base m st (Reach-IsSound base db r s)

-- No history of reservations, commits, releases and expiries that follow one another oversells a
-- node: on each resource, what is allocated and reserved stays within its size.
pub never_oversold :
    (base : Resource → ℕ → ℤ) (db : Tables) {after : Tables}
    → IsSound base db
    → Reach db after
    → (id : ℕ) (n : Node) (k : Resource) → find_node id after.nodes ≡ some n
    → allocated_on k n +ℤ reserved_on k n ≤ℤ capacity k n
never_oversold base db s r id n k there = ((Reach-IsSound base db r s).accounts id n there k).within
