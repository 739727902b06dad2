-- ===== src/Access/Csrf.antt =====
-- backend/internal/middleware/csrf.go: whether a request passes. A missing header is the empty text. The
-- token of the Authorization header is the text after "Bearer ", if the header has more than that.
use vps_billing_gemini.Prelude.{
  ◌≡◌, ◌≢◌, ◌↔◌, inl, inr, refl, Bool, true, false, not, ◌||◌, Option, none, some, String, str_eq,
  eq_iff, if◌then◌else◌, arith, Bool-cases, Option-cases, List, [], ◌∷◌, ◌⊎◌,
}
use vps_billing_gemini.Access.Session.{Session, ActorType, user, admin}

pub record Request : Type 0 where
  pub method : String
  pub bearer : Option String
  pub x_csrf_token : String
  pub x_xsrf_token : String
  pub user_csrf_cookie : Option String
  pub admin_csrf_cookie : Option String
  pub csrf_cookie : Option String

abbrev pub is_safe : String → Bool
is_safe method = str_eq method "GET" || str_eq method "HEAD" || str_eq method "OPTIONS"

abbrev pub text_of : Option String → String
text_of none = ""
text_of (some text) = text

abbrev pub or_text : String → String → String
or_text text second = if str_eq text "" then second else text

abbrev pub actor_cookie : ActorType → Request → Option String
actor_cookie admin req = req.admin_csrf_cookie
actor_cookie user req = req.user_csrf_cookie

-- The first of the two headers, the actor's cookie and the general cookie that is not empty.
unfoldable pub client_token : Request → ActorType → String
client_token req actor = or_text req.x_csrf_token (
    or_text req.x_xsrf_token (or_text (text_of (actor_cookie actor req)) (text_of req.csrf_cookie)))

abbrev pub is_bearer : Request → Session → Bool
is_bearer req sess = elim req.bearer [ none ↦ false | some token ↦ str_eq token sess.token ]

abbrev pub has_token : String → Session → Bool
has_token token sess =
    not (str_eq token "" || str_eq sess.csrf_token "" || not (str_eq token sess.csrf_token))

unfoldable pub csrf_passes : Request → Option Session → Bool
csrf_passes req none = true
csrf_passes req (some sess) =
    if is_safe req.method
    then true
    else if is_bearer req sess
    then true
    else has_token (client_token req sess.actor_type) sess

-- The methods that RFC 9110 has for reading.
abbrev pub IsReading : String → Type 0
IsReading method = (method ≡ "GET") ⊎ (method ≡ "HEAD") ⊎ (method ≡ "OPTIONS")

-- Where the token against forgery of a session may stand, in the order of precedence.
abbrev pub places : ActorType → Request → List String
places user req =
    req.x_csrf_token
    ∷ req.x_xsrf_token
    ∷ text_of req.user_csrf_cookie
    ∷ text_of req.csrf_cookie
    ∷ []
places admin req =
    req.x_csrf_token
    ∷ req.x_xsrf_token
    ∷ text_of req.admin_csrf_cookie
    ∷ text_of req.csrf_cookie
    ∷ []

-- The text stands in the list, with only empty texts in front of it.
abbrev pub IsFirst : String → List String → Type 0
IsFirst token [] = ⊥
IsFirst token (text ∷ texts) = (text ≡ token) ⊎ ((text ≡ "") × IsFirst token texts)

-- The requests that should pass.
pub data Allowed (req : Request) : Option Session → Type 0 where
  anonymous : Allowed req none
  safe : (sess : Session) → IsReading req.method → Allowed req (some sess)
  bearer : (sess : Session) → req.bearer ≡ some sess.token → Allowed req (some sess)
  with_token :
      (sess : Session)
      → sess.csrf_token ≢ ""
      → IsFirst sess.csrf_token (places sess.actor_type req)
      → Allowed req (some sess)

token_holds :
    (token : String) (sess : Session)
    → has_token token sess ≡ true
    → (token ≡ sess.csrf_token) × (sess.csrf_token ≢ "")
token_holds token sess h =
    ground (arith, eq_iff token sess.csrf_token, eq_iff sess.csrf_token "", eq_iff token "")

holds_token :
    (token : String) (sess : Session)
    → token ≡ sess.csrf_token
    → sess.csrf_token ≢ ""
    → has_token token sess ≡ true
holds_token token sess e h =
    ground (arith, eq_iff token sess.csrf_token, eq_iff sess.csrf_token "", eq_iff token "")

is_safe-IsReading : (method : String) → is_safe method ≡ true → IsReading method
is_safe-IsReading method h =
    ground (arith, eq_iff method "GET", eq_iff method "HEAD", eq_iff method "OPTIONS")

IsReading-is_safe : (method : String) → IsReading method → is_safe method ≡ true
IsReading-is_safe method h =
    ground (arith, eq_iff method "GET", eq_iff method "HEAD", eq_iff method "OPTIONS")

client_token-IsFirst :
    (actor : ActorType) (req : Request) (token : String)
    → token ≢ ""
    → client_token req actor ≡ token
    → IsFirst token (places actor req)
unfolding client_token
client_token-IsFirst user req token h e = ground (
  arith,
  eq_iff req.x_csrf_token "",
  eq_iff req.x_xsrf_token "",
  eq_iff (text_of req.user_csrf_cookie) "",
)
client_token-IsFirst admin req token h e = ground (
  arith,
  eq_iff req.x_csrf_token "",
  eq_iff req.x_xsrf_token "",
  eq_iff (text_of req.admin_csrf_cookie) "",
)

IsFirst-client_token :
    (actor : ActorType) (req : Request) (token : String)
    → token ≢ ""
    → IsFirst token (places actor req)
    → client_token req actor ≡ token
unfolding client_token
IsFirst-client_token user req token h e = ground (
  arith,
  eq_iff req.x_csrf_token "",
  eq_iff req.x_xsrf_token "",
  eq_iff (text_of req.user_csrf_cookie) "",
)
IsFirst-client_token admin req token h e = ground (
  arith,
  eq_iff req.x_csrf_token "",
  eq_iff req.x_xsrf_token "",
  eq_iff (text_of req.admin_csrf_cookie) "",
)

bearer_of :
    (req : Request) (sess : Session) → is_bearer req sess ≡ true → req.bearer ≡ some sess.token
bearer_of req sess h = elim (Option-cases req.bearer) [
  | inl absent ↦ absurd (ground arith)
  | inr (token, there) ↦ ground (arith, eq_iff token sess.token)
]

is_bearer_of :
    (req : Request) (sess : Session) → req.bearer ≡ some sess.token → is_bearer req sess ≡ true
is_bearer_of req sess h = rw h ((eq_iff sess.token sess.token).1 refl)

passes-Allowed :
    (req : Request) (context : Option Session)
    → csrf_passes req context ≡ true
    → Allowed req context
unfolding csrf_passes
passes-Allowed req none h = anonymous
passes-Allowed req (some sess) h = elim (Bool-cases (is_safe req.method)) [
  | inl reading ↦ safe sess (is_safe-IsReading req.method reading)
  | inr writing ↦ elim (Bool-cases (is_bearer req sess)) [
    | inl named ↦ bearer sess (bearer_of req sess named)
    | inr ambient ↦
        let (same, nonempty) = token_holds (client_token req sess.actor_type) sess (ground arith) in
        with_token sess nonempty
          (client_token-IsFirst sess.actor_type req sess.csrf_token nonempty same)
  ]
]

Allowed-passes :
    (req : Request) (context : Option Session)
    → Allowed req context
    → csrf_passes req context ≡ true
unfolding csrf_passes
Allowed-passes req none anonymous = refl
Allowed-passes req (some sess) (safe _ h) = rw (IsReading-is_safe req.method h) refl
Allowed-passes req (some sess) (bearer _ h) = ground (arith, is_bearer_of req sess h)
Allowed-passes req (some sess) (with_token _ h first) =
    let e = IsFirst-client_token sess.actor_type req sess.csrf_token h first in
    ground (arith, holds_token (client_token req sess.actor_type) sess e h)

-- The middleware lets through exactly the requests of the methods GET, HEAD and OPTIONS, those without a
-- session, those whose Authorization header has the session's token, and those where the session's token
-- against forgery, which is not empty, is the first text that is not empty among the two headers, the
-- cookie of the session's kind of actor and the general cookie.
pub csrf_passes-Allowed :
    (req : Request) (context : Option Session)
    → (csrf_passes req context ≡ true) ↔ Allowed req context
csrf_passes-Allowed req context = (passes-Allowed req context, Allowed-passes req context)

abbrev pub cookie_only : String → Session → Request
cookie_only method sess = record {
  method = method;
  bearer = none;
  x_csrf_token = "";
  x_xsrf_token = "";
  user_csrf_cookie = none;
  admin_csrf_cookie = none;
  csrf_cookie = some sess.csrf_token;
}

cookie_token :
    (method : String) (sess : Session) (actor : ActorType)
    → client_token (cookie_only method sess) actor ≡ sess.csrf_token
unfolding client_token
cookie_token method sess user = refl
cookie_token method sess admin = refl

-- A request without any of the headers passes when the cookie against forgery, which a browser sends by
-- itself, has the session's own token: the check does not ask the caller to know that token.
pub csrf_cookie_passes :
    (method : String) (sess : Session)
    → sess.csrf_token ≢ ""
    → csrf_passes (cookie_only method sess) (some sess) ≡ true
csrf_cookie_passes method sess h = Allowed-passes (cookie_only method sess) (some sess) (
    with_token sess h (
      client_token-IsFirst sess.actor_type (cookie_only method sess) sess.csrf_token h
        (cookie_token method sess sess.actor_type)))
