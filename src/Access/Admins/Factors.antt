-- ===== src/Access/Admins/Factors.antt =====
-- The second factor, the initial passwords and the permissions of an administrator.
use vps_billing_gemini.Prelude.{
  ℕ, ◌+◌, ◌-◌, ◌/◌, ◌≤◌, ◌≡◌, ◌≢◌, ◌⊎◌, ◌↔◌, refl, sym, ap, subst, ◌∙◌, inl, inr, true, false, List,
  [], ◌∷◌, Option, none, some, String, str_eq, eq_iff, ok, arith, ◌==◌, ==_iff, Bool-cases,
}
use vps_billing_gemini.Prelude.Table.{update_by}
use vps_billing_gemini.Access.Session.{Session}
use vps_billing_gemini.Access.Admins.{
  code_at, Admin, active, Library, Surroundings, State, can_authenticate, match_admin_password,
  find_by_email, set_two_factor, check_credentials, login, enable_two_factor, generate_totp_code,
  is_code, validate_totp_code, contains, has_permission,
}
use vps_billing_gemini.Access.Admins.Login.{login-Proven}

updated_enabled :
    (email : String) (id : ℕ) (secret : Option String) (rows : List Admin) (a : Admin)
    → find_by_email email (update_by Admin.id id (set_two_factor true secret) rows) ≡ some a
    → a.id ≡ id
    → a.two_factor_enabled ≡ true
updated_enabled email id secret [] a h own = cc
updated_enabled email id secret (r ∷ rows) a h own = elim (Bool-cases (r.id == id)) [
  | inl here ↦ ground (arith, updated_enabled email id secret rows a)
  | inr away ↦ ground (arith, updated_enabled email id secret rows a)
]

enabled_rows :
    (lib : Library) (around : Surroundings) (id : ℕ) (secret code : String) (s : State)
    → (enable_two_factor lib around id secret code s).0 ≡ ok tt
    → (enable_two_factor lib around id secret code s).1.admins
      ≡ update_by Admin.id id (set_two_factor true (some secret)) s.admins
unfolding enable_two_factor
enabled_rows lib around id secret code s h = ground arith

-- Once an administrator has enabled the second factor, no login by password alone returns a session of
-- that administrator, whatever the email, the password and the surroundings.
pub enable_two_factor-login :
    (lib : Library) (around later : Surroundings) (id : ℕ) (secret code email password : String)
    (s : State) (a : Admin) (sess : Session)
    → (enable_two_factor lib around id secret code s).0 ≡ ok tt
    → (login lib later email password (enable_two_factor lib around id secret code s).1).0
      ≡ ok (a, sess)
    → a.id ≢ id
enable_two_factor-login lib around later id secret code email password s a sess enabled h own =
    let after = (enable_two_factor lib around id secret code s).1 in
    let (proven, plain, kind, its) = login-Proven lib later email password after a sess h in
    let found =
      ap (find_by_email (lib.normal email)) (sym (enabled_rows lib around id secret code s enabled))
      ∙ proven.stored in
    let yes = updated_enabled (lib.normal email) id (some secret) s.admins a found own in
    ground arith

initial_matches :
    (lib : Library) (a : Admin)
    → a.email ≡ "admin@vps-billing.local"
    → match_admin_password lib a "Admin123456!" ≡ true
unfolding match_admin_password
initial_matches lib a initial = ground (arith, eq_iff a.email "admin@vps-billing.local")

-- Whatever the stored hash and the hashing library, the password "Admin123456!" passes the credential
-- checks of an active administrator whose email is that of the initial one.
pub check_credentials_default :
    (lib : Library) (around : Surroundings) (email : String) (s : State) (a : Admin)
    → around.fails 0 ≡ false
    → find_by_email (lib.normal email) s.admins ≡ some a
    → a.email ≡ "admin@vps-billing.local"
    → a.status ≡ active
    → check_credentials lib around email "Admin123456!" s ≡ (ok a, s)
unfolding check_credentials can_authenticate
check_credentials_default lib around email s a read there initial may =
    let matches : match_admin_password lib a "Admin123456!" ≡ true =
      initial_matches lib a initial in
    ground (arith, eq_iff a.email "admin@vps-billing.local")

before : (t : ℕ) → 30 ≤ t → (t - 30) / 30 ≡ t / 30 - 1
before t h = omega arith

after : (t : ℕ) → (t + 30) / 30 ≡ t / 30 + 1
after t = omega arith

same_code :
    (made : Option String) (code : String)
    → ((elim made [ none ↦ false | some generated ↦ str_eq generated code ]) ≡ true)
      ↔ (made ≡ some code)
same_code none code = ground arith
same_code (some generated) code = ground (arith, eq_iff generated code)

code_of :
    (lib : Library) (secret code : String) (seconds counter : ℕ)
    → seconds / 30 ≡ counter
    → (is_code lib secret code seconds ≡ true) ↔ (code_at lib secret counter ≡ some code)
unfolding generate_totp_code
code_of lib secret code seconds counter e =
    subst (λ c. (is_code lib secret code seconds ≡ true) ↔ (code_at lib secret c ≡ some code)) e
      (same_code (code_at lib secret (seconds / 30)) code)

-- A code is accepted exactly when, trimmed, it has six bytes and is the code of the current, the last or
-- the next interval of 30 seconds; the moment is at least 30 seconds after the epoch.
pub validate_totp_code_iff :
    (lib : Library) (secret code : String) (seconds : ℕ)
    → 30 ≤ seconds
    → (validate_totp_code lib secret code seconds ≡ true) ↔ (
        (lib.byte_length (lib.trim code) ≡ 6)
        × ((code_at lib secret (seconds / 30 - 1) ≡ some (lib.trim code))
            ⊎ ((code_at lib secret (seconds / 30) ≡ some (lib.trim code))
                ⊎ (code_at lib secret (seconds / 30 + 1) ≡ some (lib.trim code)))))
unfolding validate_totp_code
validate_totp_code_iff lib secret code seconds late =
    let trimmed = lib.trim code in
    ground (
      arith,
      code_of lib secret trimmed (seconds - 30) (seconds / 30 - 1) (before seconds late),
      code_of lib secret trimmed seconds (seconds / 30) refl,
      code_of lib secret trimmed (seconds + 30) (seconds / 30 + 1) (after seconds),
      ==_iff (lib.byte_length trimmed) 6,
    )

-- The name stands in the list.
abbrev pub Occurs : String → List String → Type 0
Occurs x [] = ⊥
Occurs x (y ∷ ys) = (y ≡ x) ⊎ Occurs x ys

contains-Occurs : (x : String) (ys : List String) → (contains x ys ≡ true) ↔ Occurs x ys
contains-Occurs x [] = ground arith
contains-Occurs x (y ∷ ys) = ground (arith, contains-Occurs x ys, eq_iff y x)

-- HasPermission, when the roles and permissions are read, says yes exactly to a super administrator and to
-- one who has the permission.
pub has_permission-Occurs :
    (roles perms : List String) (required : String)
    → (has_permission (some roles) (some perms) required ≡ some true)
      ↔ (Occurs "super_admin" roles ⊎ Occurs required perms)
unfolding has_permission
has_permission-Occurs roles perms required =
    ground (arith, contains-Occurs "super_admin" roles, contains-Occurs required perms)
