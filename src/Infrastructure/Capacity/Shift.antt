-- ===== src/Infrastructure/Capacity/Shift.antt =====
-- How the accounts of one node follow a change of its counters and of the sums.
use vps_billing_gemini.Prelude.{ℕ, ◌≡◌}
use vps_billing_gemini.Prelude.Int.{ℤ, pos, ◌+ℤ◌, ◌≤ℤ◌, int_laws, +ℤ_assoc}
use vps_billing_gemini.Prelude.Table.{total_of}
use vps_billing_gemini.Infrastructure.Model.{Node}
use vps_billing_gemini.Infrastructure.Store.{Tables}
use vps_billing_gemini.Infrastructure.Capacity.Invariant.{
  Resource, capacity, allocated_on, reserved_on, held, used, Accounts,
}

-- Node n' is n after its counters and the sums have moved by the same d and e.
pub Accounts-shift :
    (base : Resource → ℕ → ℤ) (db after : Tables) (n n' : Node) (k : Resource) (d e : ℤ)
    → Accounts base db n k
    → n'.id ≡ n.id
    → capacity k n' ≡ capacity k n
    → reserved_on k n' ≡ reserved_on k n +ℤ d
    → allocated_on k n' ≡ allocated_on k n +ℤ e
    → total_of (held k n.id) after.reservations ≡ total_of (held k n.id) db.reservations +ℤ d
    → total_of (used k n.id) after.reservations ≡ total_of (used k n.id) db.reservations +ℤ e
    → allocated_on k n +ℤ reserved_on k n +ℤ d +ℤ e ≤ℤ capacity k n
    → Accounts base after n' k
Accounts-shift base db after n n' k d e a same_id same_size moved_r moved_a held_by used_by fits =
    record {
      reserved_exact = rw (moved_r, a.reserved_exact, same_id, held_by);
      allocated_exact = rw (moved_a, a.allocated_exact, same_id, used_by) (+ℤ_assoc _ _ _);
      within = rw (same_size, moved_a, moved_r) (omega (int_laws, fits));
      sized = rw same_size a.sized;
    }

pub plus_zero : (x : ℤ) → x ≡ x +ℤ pos 0
plus_zero x = omega int_laws

-- A node that an operation does not touch.
pub Accounts-still :
    (base : Resource → ℕ → ℤ) (db after : Tables) (n : Node) (k : Resource)
    → Accounts base db n k
    → total_of (held k n.id) after.reservations ≡ total_of (held k n.id) db.reservations
    → total_of (used k n.id) after.reservations ≡ total_of (used k n.id) db.reservations
    → Accounts base after n k
Accounts-still base db after n k a held_by used_by = record {
  reserved_exact = rw (held_by, a.reserved_exact);
  allocated_exact = rw (used_by, a.allocated_exact);
  within = a.within;
  sized = a.sized;
}

pub zero_plus : (x : ℤ) → pos 0 +ℤ x ≡ x
zero_plus x = omega int_laws

abbrev pub AccountsOf : (Resource → ℕ → ℤ) → Tables → Node → Type 0
AccountsOf base db n = (k : Resource) → Accounts base db n k
