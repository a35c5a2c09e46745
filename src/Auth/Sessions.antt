-- ===== src/Auth/Sessions.antt =====
-- Logging in, and what a session that began so can do.
use abyte_tex.Base.{
  ℕ, ◌+◌, ◌≤◌, ◌≡◌, refl, Bool, true, false, none, some, ◌==◌, any, if◌then◌else◌, arith,
  Bool-cases, Memᴰ, Option-cases, any_key-map, ==_refl, inl, inr, ◌∙◌,
}
use abyte_tex.Http.{ok, err, unauthorized, forbidden}
use abyte_tex.Schema.{User, UserStatus, same_user_status, RefreshToken}
use abyte_tex.Auth.Libraries.{Crypto, Jwt, TokenType}
use abyte_tex.Auth.{
  AuthTokens, refresh_token_ttl, create_refresh_token, issue_tokens, refuse_password, record_login,
  start_session, login, refresh, rotate, revoke,
}
use abyte_tex.Database.{Prisma, Db, ◌>>=◌, pure}
use abyte_tex.Database.Creation.{find_first-create}
use abyte_tex.Database.Laws.{bind_ok}

module _ ⦃P : Prisma⦄ ⦃C : Crypto⦄ ⦃J : Jwt⦄ (now : ℕ) (user : User) (db : Db) where
  -- A new token for the user, from the n-th draw.
  abbrev pub issued_token : ℕ → RefreshToken
  issued_token n = record {
    id = P.cuid (n + 1);
    user_id = user.id;
    token_hash = C.hash_token (C.random_bytes n);
    expires_at = now + refresh_token_ttl;
    revoked_at = none;
  }

  abbrev pub issued_tokens : ℕ → AuthTokens
  issued_tokens n = record {
    access_token = J.sign (record { sub = user.id; token_type = TokenType.access });
    refresh_token = C.random_bytes n;
    refresh_token_expires_at = now + refresh_token_ttl;
  }

  -- The attempt as the login history records it.
  abbrev pub attempted : Bool → Db
  attempted success = record db {
    access = record db.access {
      login_history =
          P.create (record { id = P.cuid db.generated; user_id = user.id; success = success })
            db.access.login_history;
    };
    generated = db.generated + 1;
  }

  abbrev pub logged_in : Db
  logged_in = record db {
    access = record db.access {
      login_history =
          P.create (record { id = P.cuid db.generated; user_id = user.id; success = true })
            db.access.login_history;
      users =
          P.update (λ u. u.id == user.id) (λ u. record u { last_login_at = some now })
            db.access.users;
    };
    generated = db.generated + 1;
  }

  -- The session that login starts.
  abbrev pub session : Db
  session = record db {
    access = record db.access {
      login_history =
          P.create (record { id = P.cuid db.generated; user_id = user.id; success = true })
            db.access.login_history;
      users =
          P.update (λ u. u.id == user.id) (λ u. record u { last_login_at = some now })
            db.access.users;
      refresh_tokens = P.create (issued_token (db.generated + 1)) db.access.refresh_tokens;
    };
    generated = db.generated + 3;
  }

  module _ (by_id : P.find_first (λ u. u.id == user.id) db.access.users ≡ some user)
      (fresh : any
          (λ t. t.token_hash == C.hash_token (C.random_bytes (db.generated + 1)))
          db.access.refresh_tokens
        ≡ false) where
    record_login_lem :
        record_login now user db ≡ (ok (record user { last_login_at = some now }), logged_in)
    unfolding record_login
    record_login_lem = ground arith

    issue_tokens_lem :
        issue_tokens now user.id logged_in ≡ (ok (issued_tokens (db.generated + 1)), session)
    unfolding issue_tokens create_refresh_token
    issue_tokens_lem = ground arith

    start_session_lem : start_session now user db ≡ (
        if same_user_status user.status UserStatus.active
        then (ok (user, issued_tokens (db.generated + 1)), session)
        else (err forbidden, db))
    unfolding start_session
    start_session_lem = elim (Bool-cases (same_user_status user.status UserStatus.active)) [
      | inl e ↦ rw e (
          bind_ok (record_login now user)
            (λ _. issue_tokens now user.id >>= λ tokens. pure (user, tokens)) db record_login_lem
          ∙ bind_ok (issue_tokens now user.id) (λ tokens. pure (user, tokens)) logged_in
              issue_tokens_lem)
      | inr e ↦ rw e refl
    ]

    -- A login with the address of an account that is not deleted succeeds exactly when the
    -- password verifies and the account is ACTIVE, the next refresh token being new. It then
    -- records the login, sets the time of the last one, and stores one refresh token that is good
    -- for 30 days. A wrong password is a 401 and leaves only a failed attempt in the login history;
    -- an account that is not ACTIVE is a 403 and leaves nothing.
    pub login_lem :
        (email password : ℕ)
        → P.find_first (λ u. u.email == email) db.access.users ≡ some user
        → user.deleted_at ≡ none
        → login now email password db ≡ (
            if C.verify_password user.password_hash password
            then (if same_user_status user.status UserStatus.active
                then (ok (user, issued_tokens (db.generated + 1)), session)
                else (err forbidden, db))
            else (err unauthorized, attempted false))
    unfolding login refuse_password
    login_lem email password by_email kept = ground (arith, start_session_lem)

    module _ (later : ℕ) (in_time : later ≤ now + refresh_token_ttl)
        (again : any
            (λ t. t.token_hash == C.hash_token (C.random_bytes (db.generated + 3)))
            session.access.refresh_tokens
          ≡ false) where
      -- The tokens that the rotation issues.
      abbrev pub next_tokens : AuthTokens
      next_tokens = record {
        access_token = J.sign (record { sub = user.id; token_type = TokenType.access });
        refresh_token = C.random_bytes (db.generated + 3);
        refresh_token_expires_at = later + refresh_token_ttl;
      }

      -- The table after the rotation of the session's token.
      abbrev rotated : Db
      rotated = record session {
        access = record session.access {
          refresh_tokens =
              P.update (λ t. t.id == (issued_token (db.generated + 1)).id) (revoke later)
                session.access.refresh_tokens;
        };
      }

      found_again :
          P.find_first
            (λ t. t.token_hash == C.hash_token (C.random_bytes (db.generated + 1)))
            session.access.refresh_tokens
          ≡ some (issued_token (db.generated + 1))
      found_again =
          find_first-create (λ t. t.token_hash == C.hash_token (C.random_bytes (db.generated + 1)))
            (issued_token (db.generated + 1)) db.access.refresh_tokens fresh (==_refl _)

      still_new :
          any
            (λ t. t.token_hash == C.hash_token (C.random_bytes (db.generated + 3)))
            rotated.access.refresh_tokens
          ≡ false
      still_new = rw P.update_lem (
          any_key-map (λ (t : RefreshToken). t.token_hash)
            (λ r. if r.id == (issued_token (db.generated + 1)).id then revoke later r else r)
            (C.hash_token (C.random_bytes (db.generated + 3))) session.access.refresh_tokens
            (λ r. elim (Bool-cases (r.id == (issued_token (db.generated + 1)).id)) [
              | inl b ↦ rw b
              | inr b ↦ rw b
            ])
          ∙ again)

      issue_again : (issue_tokens later user.id rotated).0 ≡ ok next_tokens
      unfolding issue_tokens create_refresh_token
      issue_again = ground (arith, still_new)

      stored : Memᴰ (issued_token (db.generated + 1)) session.access.refresh_tokens
      stored =
          (P.find_first-some (λ t. t.token_hash == C.hash_token (C.random_bytes (db.generated + 1)))
            session.access.refresh_tokens (issued_token (db.generated + 1)) found_again).0

      rotate_again :
          (rotate later (issued_token (db.generated + 1)) session).0 ≡ ok (user.id, next_tokens)
      unfolding rotate
      rotate_again =
          elim (Option-cases (
            P.find_first (λ t. t.id == (issued_token (db.generated + 1)).id)
              session.access.refresh_tokens)) [
                | inl e ↦ absurd (
                    ground (
                      arith,
                      P.find_first-none (λ t. t.id == (issued_token (db.generated + 1)).id)
                          session.access.refresh_tokens (issued_token (db.generated + 1)) e stored,
                    ))
                | inr (r, e) ↦ ground (arith, issue_again)
              ]

      refresh_again :
          (refresh later (C.random_bytes (db.generated + 1)) session).0 ≡ ok (user.id, next_tokens)
      unfolding refresh
      refresh_again = ground (arith, found_again, rotate_again)

      -- Whoever logs in can stay: with the right password of an ACTIVE account that is not deleted,
      -- login returns, the access token that it returned verifies as one for the user, and the
      -- refresh token that it returned can be exchanged at any time until its 30 days are over, the
      -- two refresh tokens that are drawn being new.
      pub login-refresh :
          (email password : ℕ)
          → P.find_first (λ u. u.email == email) db.access.users ≡ some user
          → user.deleted_at ≡ none
          → C.verify_password user.password_hash password ≡ true
          → same_user_status user.status UserStatus.active ≡ true
          → (login now email password db ≡ (ok (user, issued_tokens (db.generated + 1)), session))
            × (J.verify (issued_tokens (db.generated + 1)).access_token
                ≡ some (record { sub = user.id; token_type = TokenType.access }))
            × ((refresh later (issued_tokens (db.generated + 1)).refresh_token session).0
                ≡ ok (user.id, next_tokens))
      login-refresh email password by_email kept verified active = (
        login_lem email password by_email kept ∙ rw (verified, active) refl,
        J.verify-sign (record { sub = user.id; token_type = TokenType.access }),
        refresh_again,
      )
