-- ===== src/Web/Api/Renewal.antt =====
-- A request whose access token has expired, through the client, the cookie, the rotation of the
-- refresh token and the guards.
use abyte_tex.Base.{
  ℕ, suc, ◌+◌, ◌≤◌, ◌≡◌, refl, ◌∙◌, ap, true, false, Option, none, some, List, ◌==◌, ◌&&◌, ◌||◌,
  not, any, any_key-map, arith, Bool-cases, Option-cases, inl, inr, if◌then◌else◌,
}
use abyte_tex.Http.{Result, ok}
use abyte_tex.Schema.{User, RefreshToken}
use abyte_tex.Rbac.{Permission}
use abyte_tex.Auth.{
  AuthTokens, refresh_token_ttl, create_refresh_token, issue_tokens, rotate, refresh, revoke,
}
use abyte_tex.Auth.Libraries.{Crypto, Jwt, TokenType}
use abyte_tex.Auth.Strategy.{AuthenticatedUser, is_active, authenticated_user}
use abyte_tex.Guards.{Route, authorize, authenticate}
use abyte_tex.Guards.Permissions.{role_grants, override_allows, override_denies, authorize_lem}
use abyte_tex.Database.{Prisma, Db, Action}
use abyte_tex.Database.Laws.{bind_ok}
use abyte_tex.Web.{
  Field, resource, AuthState, token_of, Fetch, Reply, reply, payload, set_access_token, api_fetch,
  send, refresh_fetch, refresh_access_token, settle, strip_empty_strings,
}
use abyte_tex.Web.Requests.{fetch_of, api_fetch_renews}
use abyte_tex.Web.Api.{Backend, respond, resolve, guarded, refresh_session, handle, serve}

module _ ⦃P : Prisma⦄ ⦃C : Crypto⦄ ⦃J : Jwt⦄ (now : ℕ) (stored : RefreshToken) (db : Db) where
  -- The pair that the rotation of the stored token issues, and the database after it.
  abbrev pub renewed_tokens : AuthTokens
  renewed_tokens = record {
    access_token = J.sign (record { sub = stored.user_id; token_type = TokenType.access });
    refresh_token = C.random_bytes db.generated;
    refresh_token_expires_at = now + refresh_token_ttl;
  }

  abbrev revoked : List RefreshToken
  revoked = P.update (λ t. t.id == stored.id) (revoke now) db.access.refresh_tokens

  abbrev revoked_db : Db
  revoked_db = record db { access = record db.access { refresh_tokens = revoked } }

  abbrev pub renewed : Db
  renewed = record db {
    access = record db.access {
      refresh_tokens =
          P.create
            (record {
              id = P.cuid (db.generated + 1);
              user_id = stored.user_id;
              token_hash = C.hash_token (C.random_bytes db.generated);
              expires_at = now + refresh_token_ttl;
              revoked_at = none;
            })
            revoked;
    };
    generated = db.generated + 1 + 1;
  }

  module _ (cookie : ℕ)
      (found : P.find_first (λ t. t.token_hash == C.hash_token cookie) db.access.refresh_tokens
        ≡ some stored)
      (live : stored.revoked_at ≡ none) (in_time : now ≤ stored.expires_at)
      (fresh : any
          (λ t. t.token_hash == C.hash_token (C.random_bytes db.generated))
          db.access.refresh_tokens
        ≡ false) where
    still_fresh :
        any (λ t. t.token_hash == C.hash_token (C.random_bytes db.generated)) revoked ≡ false
    still_fresh = rw P.update_lem (
        any_key-map (λ (t : RefreshToken). t.token_hash)
          (λ r. if r.id == stored.id then revoke now r else r)
          (C.hash_token (C.random_bytes db.generated)) db.access.refresh_tokens
          (λ r. elim (Bool-cases (r.id == stored.id)) [ inl b ↦ rw b | inr b ↦ rw b ])
        ∙ fresh)

    issue_tokens_lem : issue_tokens now stored.user_id revoked_db ≡ (ok renewed_tokens, renewed)
    unfolding issue_tokens create_refresh_token
    issue_tokens_lem = ground (arith, still_fresh)

    rotate_lem : rotate now stored db ≡ (ok (stored.user_id, renewed_tokens), renewed)
    unfolding rotate
    rotate_lem =
        elim (Option-cases (P.find_first (λ t. t.id == stored.id) db.access.refresh_tokens)) [
          | inl e ↦ absurd (
              ground (
                arith,
                P.find_first-none (λ t. t.id == stored.id) db.access.refresh_tokens stored e
                    (P.find_first-some (λ t. t.token_hash == C.hash_token cookie)
                      db.access.refresh_tokens stored found).0,
              ))
          | inr (r, e) ↦ ground (arith, issue_tokens_lem)
        ]

    refresh_lem : refresh now cookie db ≡ (ok (stored.user_id, renewed_tokens), renewed)
    unfolding refresh
    refresh_lem = ground (arith, rotate_lem)

    refresh_session_lem :
        refresh_session now (some cookie) db ≡ (ok (stored.user_id, renewed_tokens), renewed)
    unfolding refresh_session
    refresh_session_lem = refresh_lem

    module _ (routes : ℕ → Route) (handlers : ℕ → Option AuthenticatedUser → Action ℕ)
        (session_json : Option AuthenticatedUser → ℕ) (others : Fetch → Backend → Reply × Backend)
        (p : ℕ) (key : Permission)
        (guard : routes p ≡ record { is_public = false; required = some key }) where
      abbrev api : Fetch → Backend → Reply × Backend
      api = serve now routes handlers session_json others

      abbrev before : Backend
      before = record { db = db; cookie = some cookie }

      abbrev after : Backend
      after = record { db = renewed; cookie = some (renewed_tokens).refresh_token }

      serve_expired :
          (old : ℕ) (body : Option (List (ℕ × Field)))
          → J.verify old ≡ none
          → api (record { path = resource p; token = some old; body = body }) before
            ≡ (reply 401 none, before)
      unfolding serve handle guarded authorize authenticate resolve
      serve_expired old body expired = rw guard (ground arith)

      serve_refresh :
          api (refresh_fetch api) before ≡ (reply 201 (some (renewed_tokens).access_token), after)
      unfolding serve resolve
      serve_refresh = rw refresh_session_lem refl

      module _ (user : User)
          (known : P.find_first (λ u. u.id == stored.user_id) db.access.users ≡ some user)
          (active : is_active user ≡ true)
          (granted : (override_allows db user.id key || role_grants db user.id key)
              && not (override_denies db user.id key)
            ≡ true) where
        authorize_again :
            authorize (routes p) (renewed_tokens).access_token renewed
            ≡ (ok (some (authenticated_user user renewed)), renewed)
        authorize_again = rw guard (
            authorize_lem (renewed_tokens).access_token
              (record { sub = stored.user_id; token_type = TokenType.access }) key renewed user
              (J.verify-sign (record { sub = stored.user_id; token_type = TokenType.access })) known
            ∙ rw (active, granted) refl)

        serve_renewed :
            (body : Option (List (ℕ × Field))) (json : ℕ) (db' : Db)
            → handlers p (some (authenticated_user user renewed)) renewed ≡ (ok json, db')
            → api
                (record {
                  path = resource p;
                  token = some (renewed_tokens).access_token;
                  body = body;
                })
                after
              ≡ (reply 200 (some json), record after { db = db' })
        unfolding serve handle guarded
        serve_renewed body json db' handled =
            ap {B = Reply × Backend}
              (λ (x : Result ℕ × Db). (respond 200 x.0, record after { db = x.1 }))
              (bind_ok (authorize (routes p) (renewed_tokens).access_token) (handlers p) renewed
                  authorize_again
                ∙ handled)

        -- A request whose access token has expired goes through unseen: if the cookie holds a
        -- refresh token that is stored, not revoked and not over, the next draw being new, and if
        -- its user is found, ACTIVE and not deleted, and is granted the permission of the route and
        -- not denied it, then a call of the fetch wrapper ends with what the handler of the route
        -- returns for this user. The store then has a new access token and is otherwise as before,
        -- and the cookie has a new refresh token.
        pub api_fetch-renewed :
            (old json n : ℕ) (body : Option (List (ℕ × Field))) (store : AuthState)
            (traffic : List Fetch) (db' : Db)
            → J.verify old ≡ none
            → handlers p (some (authenticated_user user renewed)) renewed ≡ (ok json, db')
            → let r =
                api_fetch api
                  (suc (suc n))
                  false
                  (record { path = resource p; body = body })
                  (record {
                    store = set_access_token old store;
                    server = record { db = db; cookie = some cookie };
                    traffic = traffic;
                  }) in
              (r.0 ≡ some (payload (some json)))
              × (r.1.store ≡ set_access_token (renewed_tokens).access_token store)
              × (r.1.server ≡ record { db = db'; cookie = some (renewed_tokens).refresh_token })
        unfolding settle send refresh_access_token token_of fetch_of
        api_fetch-renewed old json n body store traffic db' expired handled =
            api_fetch_renews api n (record { path = resource p; body = body })
              (record { store = set_access_token old store; server = before; traffic = traffic })
              (reply 401 none) (reply 201 (some (renewed_tokens).access_token))
              (reply 200 (some json)) before after (record after { db = db' })
              (renewed_tokens).access_token refl
              (serve_expired old (strip_empty_strings body) expired) refl serve_refresh refl
              (serve_renewed (strip_empty_strings body) json db' handled)
