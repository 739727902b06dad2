-- ===== src/Access/Users.antt =====
-- backend/internal/service/identity/user_service.go, over the users of backend/internal/domain/identity and
-- of backend/internal/repository/user_repository.go. Emails are compared after `normal`; parsing an
-- address and hashing are libraries: parameters.
pub mod Entry
pub mod Tests
use vps_billing_gemini.Prelude.{
  ℕ, Bool, true, false, not, ◌&&◌, ◌||◌, List, [], ◌∷◌, Option, none, some, String, str_eq,
  if◌then◌else◌, ltb, Result, ok, err,
}
use vps_billing_gemini.Prelude.Table.{find_by, update_by, insert_row}
use vps_billing_gemini.Access.Session.{
  Session, Sessions, create_user_session, get_session, destroy_session, user, admin,
}
use vps_billing_gemini.Access.Admins.{AuditEvent}

pub data Error : Type 0 where
  invalid_email short_password email_already_exists invalid_credentials : Error
  account_suspended account_disabled user_not_found hash_error db_error session_error : Error

pub data UserStatus : Type 0 where
  active suspended disabled : UserStatus
  other : String → UserStatus

pub record User : Type 0 where
  pub id : ℕ
  pub email : String
  pub password_hash : String
  pub status : UserStatus
  pub locale : String
  pub timezone : String
  pub last_login_at : Option ℕ

unfoldable pub can_authenticate : UserStatus → Option Error
can_authenticate suspended = some account_suspended
can_authenticate disabled = some account_disabled
can_authenticate active = none
can_authenticate (other text) = some account_disabled

-- `generate_hash` is none on an error.
pub record Library : Type 0 where
  pub normal : String → String
  pub is_address : String → Bool
  pub byte_length : String → ℕ
  pub generate_hash : String → Option String
  pub hash_matches : String → String → Bool

pub record State : Type 0 where
  pub users : List User
  pub sessions : Sessions
  pub audit : List AuditEvent

-- Failures: 0 the SELECT of the user, 1 the INSERT or the update of the last login.
pub record Surroundings : Type 0 where
  pub fails : ℕ → Bool
  pub lost : Bool
  pub fresh_id : ℕ
  pub fresh_token : Option String
  pub fresh_csrf : Option String
  pub now : ℕ

abbrev pub find_by_email : String → List User → Option User
find_by_email email [] = none
find_by_email email (u ∷ rest) = if str_eq u.email email then some u else find_by_email email rest

-- The emails are unique.
unfoldable pub create_user : User → List User → Option (List User)
create_user u users = elim (find_by_email u.email users) [
  | none ↦ insert_row User.id u users
  | some _ ↦ none
]

abbrev pub set_last_login : ℕ → User → User
set_last_login now u = record u { last_login_at = some now }

abbrev pub default_text : String → String → String
default_text default text = if str_eq text "" then default else text

module _ (lib : Library) (around : Surroundings) where
  abbrev pub record_event : String → Option ℕ → State → State
  record_event action actor_id s =
      let event : AuditEvent = record { action = action; actor_id = actor_id } in
      record s { audit = if around.lost then s.audit else event ∷ s.audit }

  -- A read that fails counts as no user.
  abbrev pub get_by_email : String → State → Option User
  get_by_email email s = if around.fails 0 then none else find_by_email email s.users

  abbrev pub new_user : String → String → String → String → User
  new_user email hash locale timezone = record {
    id = around.fresh_id;
    email = email;
    password_hash = hash;
    status = active;
    locale = default_text "zh-CN" locale;
    timezone = default_text "UTC" timezone;
    last_login_at = none;
  }

  -- From the hash on.
  abbrev pub store_user : User → State → Result Error User × State
  store_user u s = elim (if around.fails 1 then none else create_user u s.users) [
    | none ↦ (err db_error, s)
    | some users ↦ (ok u, record_event "user.registered" (some u.id) (record s { users = users }))
  ]

  unfoldable pub register : String → String → String → String → State → Result Error User × State
  unfolding create_user
  register email password locale timezone s =
      let address = lib.normal email in
      if not (lib.is_address address)
      then (err invalid_email, s)
      else if ltb (lib.byte_length password) 8
      then (err short_password, s)
      else elim (get_by_email address s) [
        | some u ↦ (err email_already_exists, s)
        | none ↦ elim (lib.generate_hash password) [
          | none ↦ (err hash_error, s)
          | some hash ↦ store_user (new_user address hash locale timezone) s
        ]
      ]

  -- From the update of the last login on.
  unfoldable pub open_user_session : User → State → Result Error (User × Session) × State
  open_user_session u s =
      let updated = update_by User.id u.id (set_last_login around.now) s.users in
      let seen : State = record s { users = if around.fails 1 then s.users else updated } in
      elim (create_user_session around.fresh_token around.fresh_csrf around.now u.id u.email
        s.sessions) [
          | err e ↦ (err session_error, seen)
          | ok (sess, sessions) ↦ (
            ok (u, sess),
            record_event "user.login.succeeded" (some u.id) (record seen { sessions = sessions }),
          )
        ]

  unfoldable pub login_user : String → String → State → Result Error (User × Session) × State
  unfolding open_user_session can_authenticate
  login_user email password s = elim (get_by_email (lib.normal email) s) [
    | none ↦ (err invalid_credentials, record_event "user.login.failed" none s)
    | some u ↦
        if not (lib.hash_matches u.password_hash password)
        then (err invalid_credentials, record_event "user.login.failed" (some u.id) s)
        else elim (can_authenticate u.status) [
          | some e ↦ (err e, record_event "user.login.blocked" (some u.id) s)
          | none ↦ open_user_session u s
        ]
  ]

  unfoldable pub logout_user : String → State → State
  logout_user token s =
      let noted : State = elim (get_session around.now token s.sessions) [
        | err e ↦ s
        | ok sess ↦ record_event "user.logout" (some sess.actor_id) s
      ] in
      record noted { sessions = destroy_session token noted.sessions }

  unfoldable pub get_me : ℕ → State → Result Error User
  unfolding can_authenticate
  get_me id s = if around.fails 0 then err db_error else elim (find_by User.id id s.users) [
    | none ↦ err user_not_found
    | some u ↦ elim (can_authenticate u.status) [ some e ↦ err e | none ↦ ok u ]
  ]

-- UserAuth of backend/internal/middleware/auth.go: the token of the cookie, or else that of the header.
pub data AuthError : Type 0 where
  unauthorized account_is_suspended account_is_disabled : AuthError

abbrev pub token_of : Option String → Option String → String
token_of none bearer = elim bearer [ none ↦ "" | some token ↦ token ]
token_of (some cookie) bearer =
    if str_eq cookie "" then (elim bearer [ none ↦ "" | some token ↦ token ]) else cookie

abbrev pub auth_error : Error → AuthError
auth_error account_suspended = account_is_suspended
auth_error account_disabled = account_is_disabled
auth_error _ = unauthorized

abbrev pub is_user : Session → Bool
is_user sess = elim sess.actor_type [ user ↦ true | admin ↦ false ]

abbrev pub session_or_none : Surroundings → String → State → Option Session
session_or_none around token s = elim (get_session around.now token s.sessions) [
  | err e ↦ none
  | ok sess ↦ some sess
]

unfoldable pub user_auth :
    Library
    → Surroundings
    → Option String
    → Option String
    → State
    → Result AuthError (User × Session)
unfolding get_me
user_auth lib around cookie bearer s =
    let token = token_of cookie bearer in
    if str_eq token "" then err unauthorized else elim (session_or_none around token s) [
      | none ↦ err unauthorized
      | some sess ↦
          if not (is_user sess)
          then err unauthorized
          else elim (get_me lib around sess.actor_id s) [
            | err e ↦ err (auth_error e)
            | ok u ↦ ok (u, sess)
          ]
    ]
