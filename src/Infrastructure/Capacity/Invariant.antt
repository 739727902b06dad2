-- ===== src/Infrastructure/Capacity/Invariant.antt =====
-- The invariant of the two tables, and the exactness of the free capacity under it.
use vps_billing_gemini.Prelude.{
  ℕ, ◌≡◌, Bool, true, false, ◌&&◌, some, arith, ◌==◌, if◌then◌else◌, All,
}
use vps_billing_gemini.Prelude.Int.{
  ℤ, pos, negsuc, ◌+ℤ◌, ◌-ℤ◌, ◌≤ℤ◌, ◌<ℤ◌, two_63, int_laws, int64, int64_exact,
}
use vps_billing_gemini.Prelude.Table.{IsKeyed, total_of, total_of_nonneg}
use vps_billing_gemini.Infrastructure.Model.{
  Node, Reservation, ReservationStatus, committed, is_reserved, available_cpu, available_memory_mb,
  available_disk_gb, at_least_zero,
}
use vps_billing_gemini.Infrastructure.Store.{Tables, find_node}

pub data Resource : Type 0 where
  cpu memory disk : Resource

abbrev pub capacity : Resource → Node → ℤ
capacity cpu n = n.cpu_total
capacity memory n = n.memory_total_mb
capacity disk n = n.disk_total_gb

abbrev pub allocated_on : Resource → Node → ℤ
allocated_on cpu n = n.cpu_allocated
allocated_on memory n = n.memory_allocated_mb
allocated_on disk n = n.disk_allocated_gb

abbrev pub reserved_on : Resource → Node → ℤ
reserved_on cpu n = n.cpu_reserved
reserved_on memory n = n.memory_reserved_mb
reserved_on disk n = n.disk_reserved_gb

abbrev pub amount : Resource → Reservation → ℤ
amount cpu r = r.cpu_cores
amount memory r = r.memory_mb
amount disk r = r.disk_gb

abbrev pub available : Resource → Node → ℤ
available cpu n = available_cpu n
available memory n = available_memory_mb n
available disk n = available_disk_gb n

abbrev pub is_committed : ReservationStatus → Bool
is_committed committed = true
is_committed _ = false

-- What one reservation holds of a node, and what it has been allocated there.
abbrev pub held : Resource → ℕ → Reservation → ℤ
held k id r = if r.node_id == id && is_reserved r.status then amount k r else pos 0

abbrev pub used : Resource → ℕ → Reservation → ℤ
used k id r = if r.node_id == id && is_committed r.status then amount k r else pos 0

abbrev pub IsNonneg : Reservation → Type 0
IsNonneg r = (k : Resource) → pos 0 ≤ℤ amount k r

-- One node: its counters are the sums, they fit, and the size of the node is an int64.
pub record Accounts (base : Resource → ℕ → ℤ) (db : Tables) (n : Node) (k : Resource) : Type 0 where
  pub reserved_exact : reserved_on k n ≡ total_of (held k n.id) db.reservations
  pub allocated_exact : allocated_on k n ≡ base k n.id +ℤ total_of (used k n.id) db.reservations
  pub within : allocated_on k n +ℤ reserved_on k n ≤ℤ capacity k n
  pub sized : capacity k n <ℤ pos two_63

pub record IsSound (base : Resource → ℕ → ℤ) (db : Tables) : Type 0 where
  pub nodes_keyed : IsKeyed Node.id db.nodes
  pub reservations_keyed : IsKeyed Reservation.id db.reservations
  pub nonneg : All IsNonneg db.reservations
  pub base_nonneg : (k : Resource) (id : ℕ) → pos 0 ≤ℤ base k id
  pub accounts :
      (id : ℕ) (n : Node) → find_node id db.nodes ≡ some n → (k : Resource) → Accounts base db n k

held-nonneg : (k : Resource) (id : ℕ) (r : Reservation) → IsNonneg r → pos 0 ≤ℤ held k id r
held-nonneg k id r h = ground (arith, h k)

used-nonneg : (k : Resource) (id : ℕ) (r : Reservation) → IsNonneg r → pos 0 ≤ℤ used k id r
used-nonneg k id r h = ground (arith, h k)

module _ (base : Resource → ℕ → ℤ) (db : Tables) (sound : IsSound base db) where
  pub reserved_on-nonneg :
      (n : Node) (k : Resource) → Accounts base db n k → pos 0 ≤ℤ reserved_on k n
  reserved_on-nonneg n k a =
      rw a.reserved_exact
        (total_of_nonneg IsNonneg (held k n.id) (held-nonneg k n.id) db.reservations sound.nonneg)

  pub allocated_on-nonneg :
      (n : Node) (k : Resource) → Accounts base db n k → pos 0 ≤ℤ allocated_on k n
  allocated_on-nonneg n k a = rw a.allocated_exact (
      omega (
        int_laws,
        sound.base_nonneg k n.id,
        total_of_nonneg IsNonneg (used k n.id) (used-nonneg k n.id) db.reservations sound.nonneg,
      ))

int64_small : (z : ℤ) → pos 0 ≤ℤ z → z <ℤ pos two_63 → int64 z ≡ z
int64_small (pos n) h small = int64_exact (pos n) (omega arith)
int64_small (negsuc n) h small = absurd (omega arith)

at_least_zero_exact : (z : ℤ) → pos 0 ≤ℤ z → at_least_zero z ≡ z
at_least_zero_exact z h = ground arith

-- Between 0 and a size below 2^63 Go's subtraction neither wraps nor is cut off.
free_exact :
    (c a r : ℤ)
    → pos 0 ≤ℤ a
    → pos 0 ≤ℤ r
    → a +ℤ r ≤ℤ c
    → c <ℤ pos two_63
    → at_least_zero (int64 (c -ℤ int64 (a +ℤ r))) ≡ c -ℤ (a +ℤ r)
free_exact c a r ha hr fits sized = rw (int64_small (a +ℤ r) (omega int_laws) (omega int_laws)) (
    rw (int64_small (c -ℤ (a +ℤ r)) (omega int_laws) (omega int_laws))
      (at_least_zero_exact (c -ℤ (a +ℤ r)) (omega int_laws)))

-- The free capacity that the code computes is the size less what is allocated and reserved.
pub available_exact :
    (k : Resource) (n : Node)
    → pos 0 ≤ℤ allocated_on k n
    → pos 0 ≤ℤ reserved_on k n
    → allocated_on k n +ℤ reserved_on k n ≤ℤ capacity k n
    → capacity k n <ℤ pos two_63
    → available k n ≡ capacity k n -ℤ (allocated_on k n +ℤ reserved_on k n)
unfolding available_cpu available_memory_mb available_disk_gb
available_exact cpu n ha hr fits sized = at_least_zero_exact _ (omega int_laws)
available_exact memory n ha hr fits sized = free_exact _ _ _ ha hr fits sized
available_exact disk n ha hr fits sized = free_exact _ _ _ ha hr fits sized
