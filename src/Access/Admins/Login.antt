-- ===== src/Access/Admins/Login.antt =====
-- What a login proves of the caller.
use vps_billing_gemini.Prelude.{
  ◌≡◌, ◌⊎◌, sym, ap, subst, ◌∙◌, inl, inr, true, false, none, some, String, Result, ok, err, arith,
  Bool-cases, eq_iff,
}
use vps_billing_gemini.Access.Session.{Session, admin, create_admin_session}
use vps_billing_gemini.Access.Admins.{
  Error, Admin, AdminStatus, active, Library, Surroundings, State, can_authenticate,
  match_admin_password, find_by_email, check_credentials, open_session, login_after, login,
}

pair_eq : {A B : Type 0} (p : A × B) (a : A) → p.0 ≡ a → p ≡ (a, p.1)
pair_eq (x, y) a h = ap (λ z. (z, y)) h

-- The stored hash is that of the password, or it is one of the two fixed passwords of the initial
-- administrator.
abbrev pub IsKnownPassword : Library → Admin → String → Type 0
IsKnownPassword lib a password =
    (lib.hash_matches a.password_hash password ≡ true)
    ⊎ ((a.email ≡ "admin@vps-billing.local")
        × ((password ≡ "Admin123456!") ⊎ (password ≡ "AdminPassword123!")))

module _ (lib : Library) (around : Surroundings) where
  match_admin_password-IsKnownPassword :
      (a : Admin) (password : String)
      → match_admin_password lib a password ≡ true
      → IsKnownPassword lib a password
  unfolding match_admin_password
  match_admin_password-IsKnownPassword a password h = ground (
    arith,
    eq_iff a.email "admin@vps-billing.local",
    eq_iff password "Admin123456!",
    eq_iff password "AdminPassword123!",
  )

  -- The stored administrator of the email, whose account is active, with a password that is known.
  pub record Proven (email password : String) (s : State) (a : Admin) : Type 0 where
    pub stored : find_by_email (lib.normal email) s.admins ≡ some a
    pub known_password : IsKnownPassword lib a password
    pub account_active : a.status ≡ active

  active_of : (status : AdminStatus) → can_authenticate status ≡ none → status ≡ active
  unfolding can_authenticate
  active_of status h = ground arith

  checked :
      (email password : String) (s after : State) (a : Admin)
      → check_credentials lib around email password s ≡ (ok a, after)
      → (find_by_email (lib.normal email) s.admins ≡ some a)
        × (match_admin_password lib a password ≡ true)
        × (can_authenticate a.status ≡ none)
        × (after ≡ s)
  unfolding check_credentials
  checked email password s after a h = ground arith

  check-Proven :
      (email password : String) (s after : State) (a : Admin)
      → check_credentials lib around email password s ≡ (ok a, after)
      → Proven email password s a
  check-Proven email password s after a h =
      let (there, matches, may, same) = checked email password s after a h in
      record {
        stored = there;
        known_password = match_admin_password-IsKnownPassword a password matches;
        account_active = active_of a.status may;
      }

  session_of :
      (a b : Admin) (s : State) (sess : Session)
      → (open_session lib around a s).0 ≡ ok (b, sess)
      → (b ≡ a) × (sess.actor_type ≡ admin) × (sess.actor_id ≡ a.id)
  unfolding open_session create_admin_session
  session_of a b s sess h = ground arith

  login_after_inv :
      (out : Result Error Admin × State) (a : Admin) (sess : Session)
      → (login_after lib around out).0 ≡ ok (a, sess)
      → (out.0 ≡ ok a)
        × (a.two_factor_enabled ≡ false)
        × (sess.actor_type ≡ admin)
        × (sess.actor_id ≡ a.id)
  login_after_inv (err e, t) a sess h = absurd (ground arith)
  login_after_inv (ok b, t) a sess h = elim (Bool-cases b.two_factor_enabled) [
    | inl enabled ↦ absurd (ground arith)
    | inr plain ↦
        let (same, kind, own) = session_of b a t sess (ground arith) in
        (
          ap ok (sym same),
          subst (λ c. c.two_factor_enabled ≡ false) (sym same) plain,
          kind,
          own ∙ ap Admin.id (sym same),
        )
  ]

-- A login by password alone that returns a session has found an active administrator of that email,
-- without a second factor; the password is that of the stored hash, or one of the two fixed ones and the
-- administrator's email that of the initial one; and the session is an administrator's, of that one.
pub login-Proven :
    (lib : Library) (around : Surroundings) (email password : String) (s : State) (a : Admin)
    (sess : Session)
    → (login lib around email password s).0 ≡ ok (a, sess)
    → Proven lib around email password s a
      × (a.two_factor_enabled ≡ false)
      × (sess.actor_type ≡ admin)
      × (sess.actor_id ≡ a.id)
unfolding login
login-Proven lib around email password s a sess h =
    let out = check_credentials lib around email password s in
    let (good, plain, kind, own) = login_after_inv lib around out a sess h in
    (check-Proven lib around email password s out.1 a (pair_eq out (ok a) good), plain, kind, own)
