-- ===== src/Web/Api.antt =====
-- The API as the web client's fetches meet it: the global guards, then the handler of the route,
-- and the exception filter (apps/api/src/common/filters/all-exceptions.filter.ts); POST
-- /auth/refresh with its cookie (apps/api/src/auth/auth.controller.ts). Routes and handlers are
-- parameters, and so are the other endpoints below /auth/. The throttler lets the requests pass.
pub mod Renewal
use abyte_tex.Base.{ℕ, Bool, true, false, Option, none, some}
use abyte_tex.Http.{
  Error, Result, ok, err, bad_request, conflict, forbidden, not_found, unauthorized,
  unique_violation, record_not_found, internal,
}
use abyte_tex.Auth.{AuthTokens, refresh}
use abyte_tex.Auth.Libraries.{Crypto, Jwt}
use abyte_tex.Auth.Strategy.{AuthenticatedUser}
use abyte_tex.Guards.{Route, authorize}
use abyte_tex.Database.{Prisma, Db, Action, ◌>>=◌, pure, throw, or_throw}
use abyte_tex.Web.{
  Url, auth_refresh, auth_session, auth_other, resource, Fetch, Reply, unreachable, reply,
}

-- The status that the exception filter gives an exception; the last three are not HTTP exceptions.
unfoldable pub resolve : Error → ℕ
resolve bad_request = 400
resolve unauthorized = 401
resolve forbidden = 403
resolve not_found = 404
resolve conflict = 409
resolve unique_violation = 409
resolve record_not_found = 404
resolve internal = 500

-- The database, and the refresh token in the cookie of the browser.
pub record Backend : Type 0 where
  pub db : Db
  pub cookie : Option ℕ

abbrev pub respond : ℕ → Result ℕ → Reply
respond status (ok json) = reply status (some json)
respond status (err e) = reply (resolve e) none

module _ ⦃P : Prisma⦄ ⦃C : Crypto⦄ ⦃J : Jwt⦄ where
  -- A request without a bearer token is a 401, but on a public route.
  unfoldable pub guarded : Route → Option ℕ → Action (Option AuthenticatedUser)
  guarded route (some token) = authorize route token
  guarded route none = elim route.is_public [ true ↦ pure none | false ↦ throw unauthorized ]

  -- `AuthController.refresh`, which replaces the cookie if it returns.
  unfoldable pub refresh_session : ℕ → Option ℕ → Action (ℕ × AuthTokens)
  refresh_session now cookie = do token ← or_throw cookie unauthorized; refresh now token

  abbrev set_cookie : Backend → Result (ℕ × AuthTokens) × Db → Reply × Backend
  set_cookie backend (ok (_, tokens), db) =
      (reply 201 (some tokens.access_token), record { db = db; cookie = some tokens.refresh_token })
  set_cookie backend (err e, db) = (reply (resolve e) none, record backend { db = db })

  module _ (now : ℕ) (routes : ℕ → Route) (handlers : ℕ → Option AuthenticatedUser → Action ℕ)
      (session_json : Option AuthenticatedUser → ℕ)
      (others : Fetch → Backend → Reply × Backend) where
    -- A guarded request and its handler.
    unfoldable pub handle :
        Route → (Option AuthenticatedUser → Action ℕ) → Fetch → Backend → Reply × Backend
    handle route handler f backend =
        let (r, db) = (guarded route f.token >>= handler) backend.db in
        (respond 200 r, record backend { db = db })

    unfoldable pub serve : Fetch → Backend → Reply × Backend
    serve f backend = elim f.path [
      | auth_refresh ↦ set_cookie backend (refresh_session now backend.cookie backend.db)
      | auth_session ↦
          handle (record { is_public = false; required = none }) (λ user. pure (session_json user))
            f backend
      | auth_other p ↦ others f backend
      | resource p ↦ handle (routes p) (handlers p) f backend
    ]
