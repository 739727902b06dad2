-- ===== src/Access/Users/Tests.antt =====
-- Runs of the user service and of the middleware on small inputs, and the theorems at such inputs.
use vps_billing_gemini.Prelude.{◌≡◌, refl, true, false, not, [], ◌∷◌, none, some, str_eq, ok, err}
use vps_billing_gemini.Access.Session.{
  Session, user, create_user_session, destroy_session, get_session,
}
use vps_billing_gemini.Access.Users.{
  User, active, suspended, Library, State, Surroundings, account_is_suspended, invalid_credentials,
  email_already_exists, register, login_user, logout_user, user_auth, find_by_email,
}
use vps_billing_gemini.Access.Users.Entry.{login_user-Proven}

abbrev alice : User
alice = record {
  id = 4;
  email = "a@x";
  password_hash = "secret password";
  status = active;
  locale = "zh-CN";
  timezone = "UTC";
  last_login_at = none;
}

abbrev lib : Library
lib = record {
  normal = λ text. text;
  is_address = λ text. not (str_eq text "");
  byte_length = λ text. 15;
  generate_hash = λ password. some password;
  hash_matches = λ hash password. str_eq hash password;
}

abbrev around : Surroundings
around = record {
  fails = λ step. false;
  lost = false;
  fresh_id = 4;
  fresh_token = some "t1";
  fresh_csrf = some "c1";
  now = 10;
}

abbrev opened : Session
opened = record {
  token = "t1";
  actor_type = user;
  actor_id = 4;
  email = "a@x";
  csrf_token = "c1";
  roles = [];
  permissions = [];
  created_at = 10;
  expires_at = 604800000000010;
}

abbrev known : State
known = record { users = alice ∷ []; sessions = []; audit = [] }

abbrev entered : State
entered = record { users = alice ∷ []; sessions = ("t1", opened) ∷ []; audit = [] }

registers :
    (register lib around "a@x" "secret password" "" ""
      (record { users = []; sessions = []; audit = [] })).0
    ≡ ok alice
unfolding register
registers = refl

registers_once :
    (register lib around "a@x" "secret password" "" "" known).0 ≡ err email_already_exists
unfolding register
registers_once = refl

refuses : (login_user lib around "a@x" "other password" known).0 ≡ err invalid_credentials
unfolding login_user
refuses = refl

logs_in : (login_user lib around "a@x" "secret password" known).0 ≡ ok (alice, opened)
unfolding login_user create_user_session
logs_in = refl

logs_out : (logout_user lib around "t1" entered).sessions ≡ []
unfolding logout_user destroy_session get_session
logs_out = refl

refuses_suspended :
    user_auth lib around
      (some "t1")
      none
      (record entered { users = (record alice { status = suspended }) ∷ [] })
    ≡ err account_is_suspended
unfolding user_auth get_session
refuses_suspended = refl

login_user-Proven_example :
    (find_by_email "a@x" (alice ∷ []) ≡ some alice)
    × (str_eq "secret password" "secret password" ≡ true)
    × (alice.status ≡ active)
    × (opened.actor_type ≡ user)
    × (opened.actor_id ≡ 4)
login_user-Proven_example =
    login_user-Proven lib around "a@x" "secret password" known alice opened logs_in
