-- ===== src/Access/Tests.antt =====
-- Runs of the access checks on small inputs, and the theorems at such inputs.
use vps_billing_gemini.Prelude.{
  ◌==◌, ℕ, ◌≡◌, ◌≢◌, ◌⊎◌, refl, true, false, [], ◌∷◌, none, some, String, str_eq, eq_iff,
  if◌then◌else◌, ok, err, suc, ◌+◌, ◌-◌, arith, ◌↔◌, ◌/◌,
}
use vps_billing_gemini.Access.Session.{
  Session, ActorType, user, create_user_session, create_admin_session, get_session, destroy_session,
  set, session_not_found,
}
use vps_billing_gemini.Access.Session.Refinement.{
  live, to_option, sessions_refine_live, create_user_session-get_session,
}
use vps_billing_gemini.Access.Csrf.{
  Allowed, cookie_only, csrf_passes, csrf_cookie_passes, csrf_passes-Allowed,
}
use vps_billing_gemini.Access.RateLimit.{Counters, count_allowed, count_allowed-lesser, lesser}
use vps_billing_gemini.Access.Admins.{
  code_at, Admin, active, Library, Surroundings, State, match_admin_password, can_authenticate,
  check_credentials, open_session, login, enable_two_factor, validate_totp_code, generate_totp_code,
  has_permission,
}
use vps_billing_gemini.Access.Admins.Login.{Proven, login-Proven}
use vps_billing_gemini.Access.Admins.Factors.{
  Occurs, enable_two_factor-login, check_credentials_default, validate_totp_code_iff,
  has_permission-Occurs,
}

abbrev alice : Session
alice = record {
  token = "t1";
  actor_type = user;
  actor_id = 4;
  email = "a@x";
  csrf_token = "c1";
  roles = [];
  permissions = [];
  created_at = 10;
  expires_at = 604800000000010;
}

made : create_user_session (some "t1") (some "c1") 10 4 "a@x" [] ≡ ok (alice, ("t1", alice) ∷ [])
unfolding create_user_session set
made = refl

create_user_session-get_session_example :
    (alice.actor_type ≡ user)
    × (alice.actor_id ≡ 4)
    × (get_session 20 "t1" (("t1", alice) ∷ []) ≡ ok alice)
    × (get_session 20 "t1" (destroy_session "t1" (("t1", alice) ∷ [])) ≡ err session_not_found)
create_user_session-get_session_example =
    create_user_session-get_session (some "t1") (some "c1") 10 4 20 "a@x" [] (("t1", alice) ∷ [])
      alice made refl

sessions_refine_live_example :
    (to_option (get_session 20 "t1" (("t1", alice) ∷ [])) ≡ live 20 (("t1", alice) ∷ []) "t1")
    × (live 20 (set alice (("t1", alice) ∷ [])) "t2" ≡ live 20 (("t1", alice) ∷ []) "t2")
    × (live 20 (destroy_session "t1" (("t1", alice) ∷ [])) "t2" ≡ live 20 (("t1", alice) ∷ []) "t2")
sessions_refine_live_example = sessions_refine_live 20 (("t1", alice) ∷ []) "t1" alice "t2"

csrf_cookie_passes_example : csrf_passes (cookie_only "POST" alice) (some alice) ≡ true
csrf_cookie_passes_example = csrf_cookie_passes "POST" alice alice-named
  where
    alice-named : alice.csrf_token ≢ ""
    alice-named h = ground (arith, (eq_iff alice.csrf_token "").1 h)

csrf_passes-Allowed_example :
    (csrf_passes (cookie_only "POST" alice) (some alice) ≡ true)
    ↔ Allowed (cookie_only "POST" alice) (some alice)
csrf_passes-Allowed_example = csrf_passes-Allowed (cookie_only "POST" alice) (some alice)

abbrev no_windows : Counters
no_windows key = none

-- Four requests in a window of ten under a limit of two.
count_allowed-lesser_example :
    count_allowed "ip" 2 10 (5 ∷ 6 ∷ 7 ∷ 8 ∷ []) no_windows ≡ suc (lesser 3 1)
count_allowed-lesser_example =
    count_allowed-lesser "ip" 2 10 5 (6 ∷ 7 ∷ 8 ∷ []) no_windows tt (refl, (refl, (refl, tt)))

abbrev lib : Library
lib = record {
  normal = λ text. text;
  trim = λ text. text;
  byte_length = λ text. 6;
  hash_matches = λ hash password. str_eq hash password;
  clean = λ text. text;
  decode_unpadded = λ secret. if str_eq secret "S" then some "key" else none;
  decode_padded = λ secret. none;
  hmac_sha1 = λ key counter. 1 ∷ 226 ∷ 64 ∷ 0 ∷ [];
  six_digits = λ code. if code == 604736 then "123456" else "000000";
}

abbrev around : Surroundings
around = record {
  fails = λ k. false;
  lost = false;
  roles = λ id. "support" ∷ [];
  permissions = λ id. "tickets.read" ∷ [];
  fresh_token = some "t9";
  fresh_csrf = some "c9";
  now = 100;
  seconds = 100;
}

abbrev root : Admin
root = record {
  id = 1;
  email = "admin@vps-billing.local";
  password_hash = "changed";
  status = active;
  display_name = "root";
  two_factor_enabled = false;
  two_factor_secret = none;
  last_login_at = none;
}

abbrev other_admin : Admin
other_admin = record root { id = 2; email = "b@x" }

abbrev guarded : Admin
guarded = record root {
  id = 3;
  email = "c@x";
  two_factor_enabled = true;
  two_factor_secret = some "S";
}

abbrev state : State
state = record { admins = root ∷ other_admin ∷ guarded ∷ []; sessions = []; audit = [] }

abbrev admin_session : ℕ → String → Session
admin_session id email = record {
  token = "t9";
  actor_type = ActorType.admin;
  actor_id = id;
  email = email;
  csrf_token = "c9";
  roles = "support" ∷ [];
  permissions = "tickets.read" ∷ [];
  created_at = 100;
  expires_at = 86400000000100;
}

login_run : (login lib around "b@x" "changed" state).0 ≡ ok (other_admin, admin_session 2 "b@x")
unfolding login check_credentials match_admin_password can_authenticate open_session
    create_admin_session
login_run = refl

login-Proven_example :
    Proven lib around "b@x" "changed" state other_admin
    × (false ≡ false)
    × ((admin_session 2 "b@x").actor_type ≡ ActorType.admin)
    × ((admin_session 2 "b@x").actor_id ≡ 2)
login-Proven_example =
    login-Proven lib around "b@x" "changed" state other_admin (admin_session 2 "b@x") login_run

enabled_run : (enable_two_factor lib around 1 "S" "123456" state).0 ≡ ok tt
unfolding enable_two_factor validate_totp_code generate_totp_code
enabled_run = refl

-- The first administrator has enabled the second factor; the second one still logs in.
login_after_run :
    (login lib around "b@x" "changed" (enable_two_factor lib around 1 "S" "123456" state).1).0
    ≡ ok (other_admin, admin_session 2 "b@x")
unfolding enable_two_factor validate_totp_code generate_totp_code login check_credentials
    match_admin_password can_authenticate open_session create_admin_session
login_after_run = refl

enable_two_factor-login_example : other_admin.id ≢ 1
enable_two_factor-login_example =
    enable_two_factor-login lib around around 1 "S" "123456" "b@x" "changed" state other_admin
      (admin_session 2 "b@x") enabled_run login_after_run

check_credentials_default_example :
    check_credentials lib around "admin@vps-billing.local" "Admin123456!" state ≡ (ok root, state)
check_credentials_default_example =
    check_credentials_default lib around "admin@vps-billing.local" state root refl refl refl refl

validate_totp_code_iff_example : (validate_totp_code lib "S" "123456" 100 ≡ true) ↔ (
    (lib.byte_length (lib.trim "123456") ≡ 6)
    × ((code_at lib "S" (100 / 30 - 1) ≡ some "123456")
        ⊎ ((code_at lib "S" (100 / 30) ≡ some "123456")
            ⊎ (code_at lib "S" (100 / 30 + 1) ≡ some "123456"))))
validate_totp_code_iff_example = validate_totp_code_iff lib "S" "123456" 100 (omega arith)

has_permission-Occurs_example :
    (has_permission (some ("support" ∷ [])) (some ("tickets.read" ∷ [])) "tickets.read" ≡ some true)
    ↔ (Occurs "super_admin" ("support" ∷ []) ⊎ Occurs "tickets.read" ("tickets.read" ∷ []))
has_permission-Occurs_example =
    has_permission-Occurs ("support" ∷ []) ("tickets.read" ∷ []) "tickets.read"
