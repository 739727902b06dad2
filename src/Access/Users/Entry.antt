-- ===== src/Access/Users/Entry.antt =====
-- Who passes UserAuth of backend/internal/middleware/auth.go, and the Login of
-- backend/internal/service/identity/user_service.go.
use vps_billing_gemini.Prelude.{true, false, some, String, ok, ◌≡◌, arith, str_eq}
use vps_billing_gemini.Prelude.Table.{find_by}
use vps_billing_gemini.Access.Session.{Session, get_session, create_user_session, user}
use vps_billing_gemini.Access.Users.{
  active, User, Library, State, Surroundings, find_by_email, login_user, open_user_session,
  can_authenticate,
}

-- The token that the request carries is that of a live session of the user, who is active.
pub record Admitted (around : Surroundings) (token : String) (s : State) (u : User) (sess : Session)
    : Type 0 where
  pub reads : around.fails 0 ≡ false
  pub carried : str_eq token "" ≡ false
  pub live : get_session around.now token s.sessions ≡ ok sess
  pub of_user : sess.actor_type ≡ user
  pub own : find_by User.id sess.actor_id s.users ≡ some u
  pub is_active : u.status ≡ active

-- A login that returns a session has found an active user of the email with that password, and the session
-- is that one's.
pub login_user-Proven :
    (lib : Library) (around : Surroundings) (email password : String) (s : State) (u : User)
    (sess : Session)
    → (login_user lib around email password s).0 ≡ ok (u, sess)
    → (find_by_email (lib.normal email) s.users ≡ some u)
      × (lib.hash_matches u.password_hash password ≡ true)
      × (u.status ≡ active)
      × (sess.actor_type ≡ user)
      × (sess.actor_id ≡ u.id)
unfolding login_user can_authenticate open_user_session create_user_session
login_user-Proven lib around email password s u sess h = ground arith
