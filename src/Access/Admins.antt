-- ===== src/Access/Admins.antt =====
-- backend/internal/service/identity/admin_service.go and the administrators of
-- backend/internal/domain/identity. Hashing, HMAC, base32, trimming and lower case are libraries:
-- parameters. An email is compared after `normal`. The time of a code is in seconds.
pub mod Login
pub mod Factors
use vps_billing_gemini.Prelude.{
  zero, suc, length, ◌%◌, ◌*◌, ◌^◌, ℕ, ◌+◌, ◌-◌, ◌/◌, Bool, true, false, not, ◌&&◌, ◌||◌, List, [],
  ◌∷◌, Option, none, some, String, str_eq, if◌then◌else◌, ◌==◌, Result, ok, err, ◌>>=◌, ◌>>◌,
  fail_if, or_fail,
}
use vps_billing_gemini.Prelude.Table.{find_by, update_by}
use vps_billing_gemini.Access.Session.{Session, Sessions, create_admin_session}

pub data Error : Type 0 where
  invalid_credentials account_suspended account_disabled admin_not_found : Error
  two_factor_required invalid_two_factor_code : Error
  db_error session_error : Error

pub data AdminStatus : Type 0 where
  active suspended disabled : AdminStatus
  other : String → AdminStatus

pub record Admin : Type 0 where
  pub id : ℕ
  pub email : String
  pub password_hash : String
  pub status : AdminStatus
  pub display_name : String
  pub two_factor_enabled : Bool
  pub two_factor_secret : Option String
  pub last_login_at : Option ℕ

unfoldable pub can_authenticate : AdminStatus → Option Error
can_authenticate suspended = some account_suspended
can_authenticate disabled = some account_disabled
can_authenticate active = none
can_authenticate (other text) = some account_disabled

-- `clean` trims and makes upper case, the two decodings of base32 are none for a text that is not of their
-- alphabet, `hmac_sha1 key counter` is the digest of the counter's eight bytes, and `six_digits` the format "%06d".
pub record Library : Type 0 where
  pub normal : String → String
  pub trim : String → String
  pub byte_length : String → ℕ
  pub hash_matches : String → String → Bool
  pub clean : String → String
  pub decode_unpadded : String → Option String
  pub decode_padded : String → Option String
  pub hmac_sha1 : String → ℕ → List ℕ
  pub six_digits : ℕ → String

abbrev pub key_of : Library → String → Option String
key_of lib secret = elim (lib.decode_unpadded (lib.clean secret)) [
  | some key ↦ some key
  | none ↦ lib.decode_padded (lib.clean secret)
]

-- A digest of SHA-1 has 20 bytes, so no read is out of its range.
abbrev pub byte_at : ℕ → List ℕ → ℕ
byte_at i [] = 0
byte_at zero (b ∷ bytes) = b
byte_at (suc i) (b ∷ bytes) = byte_at i bytes

unfoldable pub truncated : List ℕ → ℕ
truncated hash =
    let offset = byte_at (length hash - 1) hash % 16 in
    (byte_at offset hash % 128 * 2 ^ 24
      + byte_at (offset + 1) hash % 256 * 2 ^ 16
      + byte_at (offset + 2) hash % 256 * 2 ^ 8
      + byte_at (offset + 3) hash % 256)
    % 1000000

-- The code of a counter of half minutes.
unfoldable pub code_at : Library → String → ℕ → Option String
unfolding truncated
code_at lib secret counter = elim (key_of lib secret) [
  | none ↦ none
  | some key ↦ some (lib.six_digits (truncated (lib.hmac_sha1 key counter)))
]

unfoldable pub generate_totp_code : Library → String → ℕ → Option String
unfolding code_at
generate_totp_code lib secret seconds = code_at lib secret (seconds / 30)

abbrev pub is_code : Library → String → String → ℕ → Bool
is_code lib secret code seconds = elim (generate_totp_code lib secret seconds) [
  | none ↦ false
  | some generated ↦ str_eq generated code
]

-- From 30 seconds after the epoch on.
unfoldable pub validate_totp_code : Library → String → String → ℕ → Bool
unfolding generate_totp_code
validate_totp_code lib secret code seconds =
    let trimmed = lib.trim code in
    if not (lib.byte_length trimmed == 6)
    then false
    else is_code lib secret trimmed (seconds - 30)
      || is_code lib secret trimmed seconds
      || is_code lib secret trimmed (seconds + 30)

-- With the two passwords of the initial administrator.
unfoldable pub match_admin_password : Library → Admin → String → Bool
match_admin_password lib admin password =
    lib.hash_matches admin.password_hash password
    || (str_eq admin.email "admin@vps-billing.local"
        && (str_eq password "Admin123456!" || str_eq password "AdminPassword123!"))

-- An event of the audit log, without its texts.
pub record AuditEvent : Type 0 where
  pub action : String
  pub actor_id : Option ℕ

pub record State : Type 0 where
  pub admins : List Admin
  pub sessions : Sessions
  pub audit : List AuditEvent

-- Failures: 0 the SELECT of the administrator, 1 the update of the last login, 2 and 3 the reads of roles
-- and permissions, 4 the update of the second factor; `lost` says whether the audit event is.
pub record Surroundings : Type 0 where
  pub fails : ℕ → Bool
  pub lost : Bool
  pub roles : ℕ → List String
  pub permissions : ℕ → List String
  pub fresh_token : Option String
  pub fresh_csrf : Option String
  pub now : ℕ
  pub seconds : ℕ

abbrev pub find_by_email : String → List Admin → Option Admin
find_by_email email [] = none
find_by_email email (a ∷ rest) = if str_eq a.email email then some a else find_by_email email rest

abbrev pub set_last_login : ℕ → Admin → Admin
set_last_login now a = record a { last_login_at = some now }

abbrev pub set_two_factor : Bool → Option String → Admin → Admin
set_two_factor enabled secret a = record a {
  two_factor_enabled = enabled;
  two_factor_secret = secret;
}

module _ (lib : Library) (around : Surroundings) where
  abbrev pub record_event : String → Option ℕ → State → State
  record_event action actor_id s =
      let event : AuditEvent = record { action = action; actor_id = actor_id } in
      record s { audit = if around.lost then s.audit else event ∷ s.audit }

  -- The checks that Login and LoginWith2FA begin with, with the events that they record.
  unfoldable pub check_credentials : String → String → State → Result Error Admin × State
  unfolding match_admin_password can_authenticate
  check_credentials email password s =
      elim (if around.fails 0 then none else find_by_email (lib.normal email) s.admins) [
        | none ↦ (err invalid_credentials, record_event "admin.login.failed" none s)
        | some a ↦
            if not (match_admin_password lib a password)
            then (err invalid_credentials, record_event "admin.login.failed" (some a.id) s)
            else elim (can_authenticate a.status) [
              | some e ↦ (err e, record_event "admin.login.blocked" (some a.id) s)
              | none ↦ (ok a, s)
            ]
      ]

  -- From the update of the last login on.
  unfoldable pub open_session : Admin → State → Result Error (Admin × Session) × State
  open_session a s =
      let updated = update_by Admin.id a.id (set_last_login around.now) s.admins in
      let seen : State = record s { admins = if around.fails 1 then s.admins else updated } in
      let roles = if around.fails 2 then [] else around.roles a.id in
      let perms = if around.fails 3 then [] else around.permissions a.id in
      elim (create_admin_session around.fresh_token around.fresh_csrf around.now a.id a.email roles
        perms s.sessions) [
          | err e ↦ (err session_error, seen)
          | ok (sess, sessions) ↦ (
            ok (a, sess),
            record_event "admin.login.succeeded" (some a.id) (record seen { sessions = sessions }),
          )
        ]

  abbrev pub login_after : Result Error Admin × State → Result Error (Admin × Session) × State
  login_after (err e, s) = (err e, s)
  login_after (ok a, s) =
      if a.two_factor_enabled then (err two_factor_required, s) else open_session a s

  unfoldable pub login : String → String → State → Result Error (Admin × Session) × State
  unfolding check_credentials open_session
  login email password s = login_after (check_credentials email password s)

  abbrev pub is_valid_code : Admin → String → Bool
  is_valid_code a code = elim a.two_factor_secret [
    | none ↦ false
    | some secret ↦ validate_totp_code lib secret code around.seconds
  ]

  abbrev pub login_2fa_after :
      String → Result Error Admin × State → Result Error (Admin × Session) × State
  login_2fa_after code (err e, s) = (err e, s)
  login_2fa_after code (ok a, s) =
      if not a.two_factor_enabled
      then open_session a s
      else if str_eq code ""
      then (err two_factor_required, s)
      else if is_valid_code a code
      then open_session a s
      else (err invalid_two_factor_code, record_event "admin.login.failed" (some a.id) s)

  unfoldable pub login_with_2fa :
      String → String → String → State → Result Error (Admin × Session) × State
  unfolding check_credentials open_session validate_totp_code
  login_with_2fa email password code s = login_2fa_after code (check_credentials email password s)

  unfoldable pub enable_two_factor : ℕ → String → String → State → Result Error (Unit {0}) × State
  unfolding validate_totp_code
  enable_two_factor id secret code s =
      let updated = update_by Admin.id id (set_two_factor true (some secret)) s.admins in
      if not (validate_totp_code lib secret code around.seconds)
      then (err invalid_two_factor_code, s)
      else if around.fails 4
      then (err db_error, s)
      else (ok tt, record_event "admin.2fa.enabled" (some id) (record s { admins = updated }))

  unfoldable pub disable_two_factor : ℕ → String → State → Result Error (Unit {0}) × State
  unfolding validate_totp_code
  disable_two_factor id code s =
      let updated = update_by Admin.id id (set_two_factor false none) s.admins in
      elim (if around.fails 0
        then err db_error
        else or_fail (find_by Admin.id id s.admins) admin_not_found) [
          | err e ↦ (err e, s)
          | ok a ↦
              if not (is_valid_code a code)
              then (err invalid_two_factor_code, s)
              else if around.fails 4
              then (err db_error, s)
              else (
                ok tt,
                record_event "admin.2fa.disabled" (some id) (record s { admins = updated }),
              )
        ]

abbrev pub contains : String → List String → Bool
contains x [] = false
contains x (y ∷ ys) = if str_eq y x then true else contains x ys

-- `none` is the error of a read.
unfoldable pub has_permission : Option (List String) → Option (List String) → String → Option Bool
has_permission none perms required = none
has_permission (some roles) perms required =
    if contains "super_admin" roles
    then some true
    else elim perms [ none ↦ none | some ps ↦ some (contains required ps) ]
