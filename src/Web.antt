-- ===== src/Web.antt =====
-- The web client's side of a session (apps/web/src): the store of the session
-- (store/auth-store.ts), the fetch wrapper (lib/api-client.ts) and the sidebar. What the browser
-- does with a request that goes out, and the server that answers it, are a parameter.
pub mod Requests
pub mod Navigation
pub mod Api
use abyte_tex.Base.{
  ℕ, zero, suc, Bool, true, false, Option, none, some, List, [], ◌∷◌, ◌++◌, ◌==◌, ◌&&◌, leb, ltb,
  not, filter, if◌then◌else◌,
}
use abyte_tex.Rbac.{Permission, includes_permission}
use abyte_tex.Auth.Strategy.{AuthenticatedUser}

pub data AuthStatus : Type 0 where
  idle loading authenticated unauthenticated : AuthStatus

-- An access token is `none` if it is null. A session is what GET /auth/session returns, the user as
-- the guards have it.
pub record AuthState : Type 0 where
  pub status : AuthStatus
  pub access_token : Option ℕ
  pub session : Option AuthenticatedUser

-- The store before the page has loaded.
abbrev pub initial : AuthState
initial = record { status = AuthStatus.idle; access_token = none; session = none }

abbrev pub set_loading : AuthState → AuthState
set_loading store = record store { status = AuthStatus.loading }

abbrev pub set_access_token : ℕ → AuthState → AuthState
set_access_token token store = record store { access_token = some token }

abbrev pub set_session : ℕ → AuthenticatedUser → AuthState → AuthState
set_session token session store = record {
  status = AuthStatus.authenticated;
  access_token = some token;
  session = some session;
}

abbrev pub clear : AuthState → AuthState
clear store = record { status = AuthStatus.unauthenticated; access_token = none; session = none }

-- packages/types/src/rbac.ts
unfoldable pub has_permission : List Permission → List Permission → Permission → Bool
has_permission allow deny key =
    if includes_permission key deny then false else includes_permission key allow

unfoldable pub can : AuthState → Permission → Bool
can store key = elim store.session [
  | none ↦ false
  | some session ↦ has_permission session.allow session.deny key
]

-- A path of the API: the two that the client itself asks for, the others below /auth/, the rest.
pub data Url : Type 0 where
  auth_refresh auth_session : Url
  auth_other : ℕ → Url
  resource : ℕ → Url

-- `path.startsWith("/auth/")`
abbrev pub is_auth : Url → Bool
is_auth (resource p) = false
is_auth _ = true

-- A field of a form that was left empty, or its text.
pub data Field : Type 0 where
  empty : Field
  text : ℕ → Field

pub record Request : Type 0 where
  pub path : Url
  pub body : Option (List (ℕ × Field))

-- What goes out: the path, the bearer token, and the JSON of the body.
pub record Fetch : Type 0 where
  pub path : Url
  pub token : Option ℕ
  pub body : Option (List (ℕ × Field))

-- What comes back, if anything: the status and the JSON in the body.
pub data Reply : Type 0 where
  unreachable : Reply
  reply : ℕ → Option ℕ → Reply

-- What a call ends with: the data, an ApiError with its status, or the error of `fetch`.
pub data Outcome : Type 0 where
  payload : Option ℕ → Outcome
  api_error : ℕ → Outcome
  rejected : Outcome

-- `res.ok`
abbrev pub is_ok : ℕ → Bool
is_ok status = leb 200 status && ltb status 300

abbrev pub is_unauthorized : Reply → Bool
is_unauthorized unreachable = false
is_unauthorized (reply status _) = status == 401

abbrev pub is_filled : ℕ × Field → Bool
is_filled (_, empty) = false
is_filled (_, text _) = true

-- JSON drops the fields that `stripEmptyStrings` has set to undefined.
unfoldable pub strip_empty_strings : Option (List (ℕ × Field)) → Option (List (ℕ × Field))
strip_empty_strings none = none
strip_empty_strings (some fields) = some (filter is_filled fields)

unfoldable pub settle : Reply → Outcome
settle unreachable = rejected
settle (reply status json) =
    if status == 204 then payload none else if is_ok status then payload json else api_error status

-- The store of the page, the server, and the fetches that went out so far.
pub record Page (S : Type 0) : Type 0 where
  pub store : AuthState
  pub server : S
  pub traffic : List Fetch

module _ {S : Type 0} (fetch : Fetch → S → Reply × S) where
  unfoldable pub send : Fetch → Page S → Reply × Page S
  send f page =
      let (r, server) = fetch f page.server in
      (r, record page { server = server; traffic = page.traffic ++ f ∷ [] })

  abbrev pub refresh_fetch : Fetch
  refresh_fetch = record { path = auth_refresh; token = none; body = none }

  -- The access token of the reply, or null.
  unfoldable pub token_of : Reply → Option ℕ
  token_of unreachable = none
  token_of (reply status json) = if is_ok status then json else none

  unfoldable pub refresh_access_token : Page S → Option ℕ × Page S
  unfolding send token_of
  refresh_access_token page = let (r, page') = send refresh_fetch page in (token_of r, page')

  -- After a 401: the retry with a new access token, or the end of the session.
  unfoldable pub recover : (Page S → Option Outcome × Page S) → Page S → Option Outcome × Page S
  unfolding refresh_access_token
  recover retry page =
      let (new_token, page') = refresh_access_token page in
      elim new_token [
        | none ↦ (some (api_error 401), record page' { store = clear page'.store })
        | some token ↦ retry (record page' { store = set_access_token token page'.store })
      ]

  -- `apiFetch`, on fuel for its calls of itself; `none` means that the fuel ran out.
  unfoldable pub api_fetch : ℕ → Bool → Request → Page S → Option Outcome × Page S
  unfolding send recover settle strip_empty_strings
  api_fetch zero is_retry request page = (none, page)
  api_fetch (suc n) is_retry request page =
      let retry = api_fetch n true request in
      let (r, page') =
        send
          (record {
            path = request.path;
            token = page.store.access_token;
            body = strip_empty_strings request.body;
          })
          page in
      if is_unauthorized r && not is_retry && not (is_auth request.path)
      then recover retry page'
      else (some (settle r), page')
