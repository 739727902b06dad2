-- ===== src/Access/Session/Refinement.antt =====
-- The store as a map from tokens to the sessions that are live at a moment.
use vps_billing_gemini.Prelude.{
  ℕ, ◌+◌, ◌≡◌, sym, false, [], ◌∷◌, Option, none, some, String, str_eq, eq_iff, if◌then◌else◌,
  Result, ok, err, ltb, arith,
}
use vps_billing_gemini.Access.Session.{
  Error, session_not_found, session_expired, Session, Sessions, user, lookup, set, get, delete,
  is_expired, create_user_session, get_session, destroy_session, user_session_ttl,
}

-- What the token of a request stands for.
abbrev pub unless_expired : ℕ → Option Session → Option Session
unless_expired now none = none
unless_expired now (some sess) = if is_expired now sess then none else some sess

-- The empty token stands for nothing.
unfoldable pub live : ℕ → Sessions → String → Option Session
live now sessions token =
    if str_eq token "" then none else unless_expired now (lookup token sessions)

abbrev pub to_option : Result Error Session → Option Session
to_option (ok sess) = some sess
to_option (err e) = none

get_session-live :
    (now : ℕ) (token : String) (sessions : Sessions)
    → to_option (get_session now token sessions) ≡ live now sessions token
unfolding get_session get live
get_session-live now token sessions = ground arith

lookup-delete :
    (token t : String) (sessions : Sessions)
    → lookup t (delete token sessions) ≡ (if str_eq token t then none else lookup t sessions)
unfolding delete
lookup-delete token t [] = ground arith
lookup-delete token t ((key, sess) ∷ rest) =
    ground (arith, lookup-delete token t rest, eq_iff key token, eq_iff key t, eq_iff token t)

set-live :
    (now : ℕ) (sess : Session) (sessions : Sessions) (t : String)
    → live now (set sess sessions) t ≡ (
        if str_eq t ""
        then none
        else if str_eq sess.token t
        then unless_expired now (some sess)
        else live now sessions t)
unfolding live set
set-live now sess sessions t = ground arith

destroy-live :
    (now : ℕ) (token : String) (sessions : Sessions) (t : String)
    → live now (destroy_session token sessions) t
      ≡ (if str_eq token t then none else live now sessions t)
unfolding live destroy_session
destroy-live now token sessions t =
    ground (arith, lookup-delete token t sessions, eq_iff token t, eq_iff token "", eq_iff t "")

-- The store refines the map from tokens to live sessions, at every moment: GetSession reads the map,
-- storing a session updates it at the session's token, DestroySession clears it at one token, and
-- neither touches another token.
pub sessions_refine_live :
    (now : ℕ) (sessions : Sessions) (token : String) (sess : Session) (t : String)
    → (to_option (get_session now token sessions) ≡ live now sessions token)
      × (live now (set sess sessions) t ≡ (
          if str_eq t ""
          then none
          else if str_eq sess.token t
          then unless_expired now (some sess)
          else live now sessions t))
      × (live now (destroy_session token sessions) t
          ≡ (if str_eq token t then none else live now sessions t))
sessions_refine_live now sessions token sess t = (
  get_session-live now token sessions,
  set-live now sess sessions t,
  destroy-live now token sessions t,
)

created :
    (fresh_token fresh_csrf : Option String) (now id : ℕ) (email : String)
    (sessions after : Sessions) (sess : Session)
    → create_user_session fresh_token fresh_csrf now id email sessions ≡ ok (sess, after)
    → (sess.expires_at ≡ now + user_session_ttl)
      × (sess.actor_type ≡ user)
      × (sess.actor_id ≡ id)
      × (after ≡ set sess sessions)
unfolding create_user_session
created fresh_token fresh_csrf now id email sessions after sess h = ground arith

get_after_set :
    (later : ℕ) (sess : Session) (sessions : Sessions)
    → str_eq sess.token "" ≡ false
    → get_session later sess.token (set sess sessions)
      ≡ (if ltb sess.expires_at later then err session_expired else ok sess)
unfolding get_session get set
get_after_set later sess sessions named = ground (arith, eq_iff sess.token sess.token)

gone_after_destroy :
    (later : ℕ) (token : String) (sessions : Sessions)
    → str_eq token "" ≡ false
    → get_session later token (destroy_session token sessions) ≡ err session_not_found
unfolding get_session get destroy_session
gone_after_destroy later token sessions named =
    ground (arith, eq_iff token token, lookup-delete token token sessions)

-- A user session that has been made, with a token that is not empty, belongs to that user; it is
-- returned for its token until seven days have passed, then it is expired, and after it is destroyed
-- it is not found.
pub create_user_session-get_session :
    (fresh_token fresh_csrf : Option String) (now id later : ℕ) (email : String)
    (sessions after : Sessions) (sess : Session)
    → create_user_session fresh_token fresh_csrf now id email sessions ≡ ok (sess, after)
    → str_eq sess.token "" ≡ false
    → (sess.actor_type ≡ user)
      × (sess.actor_id ≡ id)
      × (get_session later sess.token after
          ≡ (if ltb (now + user_session_ttl) later then err session_expired else ok sess))
      × (get_session later sess.token (destroy_session sess.token after) ≡ err session_not_found)
create_user_session-get_session fresh_token fresh_csrf now id later email sessions after sess h
      named =
    let (expiry, kind, own, stored) =
      created fresh_token fresh_csrf now id email sessions after sess h in
    (
      kind,
      own,
      rw (stored, sym expiry) (get_after_set later sess sessions named),
      gone_after_destroy later sess.token after named,
    )
