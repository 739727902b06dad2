-- ===== src/Access/Session.antt =====
-- backend/internal/service/session/session.go: the store in memory and the manager, without cookies. The
-- map of sessions is an association list in which the first entry of a token counts. The random
-- tokens are parameters, none when the source of randomness fails.
pub mod Refinement
use vps_billing_gemini.Prelude.{
  ℕ, ◌+◌, Bool, true, false, not, List, [], ◌∷◌, Option, none, some, String, str_eq, if◌then◌else◌,
  ltb, filter, Result, ok, err, ◌>>=◌, or_fail,
}

pub data Error : Type 0 where
  session_not_found session_expired empty_token no_randomness : Error

pub data ActorType : Type 0 where
  user admin : ActorType

pub record Session : Type 0 where
  pub token : String
  pub actor_type : ActorType
  pub actor_id : ℕ
  pub email : String
  pub csrf_token : String
  pub roles : List String
  pub permissions : List String
  pub created_at : ℕ
  pub expires_at : ℕ

abbrev pub Sessions : Type 0
Sessions = List (String × Session)

abbrev pub lookup : String → Sessions → Option Session
lookup token [] = none
lookup token ((key, sess) ∷ rest) = if str_eq key token then some sess else lookup token rest

unfoldable pub set : Session → Sessions → Sessions
set sess sessions = (sess.token, sess) ∷ sessions

-- `time.Now().After(sess.ExpiresAt)`.
abbrev pub is_expired : ℕ → Session → Bool
is_expired now sess = ltb sess.expires_at now

unfoldable pub get : ℕ → String → Sessions → Result Error Session
get now token sessions = elim (lookup token sessions) [
  | none ↦ err session_not_found
  | some sess ↦ if is_expired now sess then err session_expired else ok sess
]

unfoldable pub delete : String → Sessions → Sessions
delete token [] = []
delete token ((key, sess) ∷ rest) =
    let kept = delete token rest in if str_eq key token then kept else (key, sess) ∷ kept

-- 7 days and 24 hours, in nanoseconds.
abbrev pub user_session_ttl : ℕ
user_session_ttl = 604800000000000

abbrev pub admin_session_ttl : ℕ
admin_session_ttl = 86400000000000

unfoldable pub create_user_session :
    Option String → Option String → ℕ → ℕ → String → Sessions → Result Error (Session × Sessions)
create_user_session fresh_token fresh_csrf now user_id email sessions = do
  token ← or_fail fresh_token no_randomness
  csrf_token ← or_fail fresh_csrf no_randomness
  let sess : Session = record {
    token = token;
    actor_type = user;
    actor_id = user_id;
    email = email;
    csrf_token = csrf_token;
    roles = [];
    permissions = [];
    created_at = now;
    expires_at = now + user_session_ttl;
  }
  ok (sess, set sess sessions)

unfoldable pub create_admin_session :
    Option String
    → Option String
    → ℕ
    → ℕ
    → String
    → List String
    → List String
    → Sessions
    → Result Error (Session × Sessions)
create_admin_session fresh_token fresh_csrf now admin_id email roles permissions sessions = do
  token ← or_fail fresh_token no_randomness
  csrf_token ← or_fail fresh_csrf no_randomness
  let sess : Session = record {
    token = token;
    actor_type = admin;
    actor_id = admin_id;
    email = email;
    csrf_token = csrf_token;
    roles = roles;
    permissions = permissions;
    created_at = now;
    expires_at = now + admin_session_ttl;
  }
  ok (sess, set sess sessions)

unfoldable pub get_session : ℕ → String → Sessions → Result Error Session
unfolding get
get_session now token sessions = if str_eq token "" then err empty_token else get now token sessions

unfoldable pub destroy_session : String → Sessions → Sessions
unfolding delete
destroy_session token sessions = if str_eq token "" then sessions else delete token sessions
