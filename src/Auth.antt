-- ===== src/Auth.antt =====
-- Authentication (apps/api/src/auth/auth.service.ts): logging in, the rotation of refresh tokens,
-- and passwords. `now` is the clock; the client's address and agent are left out. The `generated`
-- counter numbers the random draws too.
pub mod Libraries
pub mod Strategy
pub mod Tokens
pub mod Revocation
pub mod Replay
pub mod Sessions
pub mod Passwords
use abyte_tex.Base.{
  ℕ, ◌+◌, ◌*◌, Bool, Option, none, some, List, ◌==◌, ◌&&◌, ltb, not, if◌then◌else◌, any,
}
use abyte_tex.Http.{
  Result, ok, forbidden, internal, record_not_found, unauthorized, unique_violation,
}
use abyte_tex.Context.{TenantRequestContext}
use abyte_tex.Schema
use abyte_tex.Schema.{
  User, UserStatus, same_user_status, LoginHistory, RefreshToken, PasswordResetToken,
}
use abyte_tex.Auth.Libraries.{Crypto, Jwt, TokenType}
use abyte_tex.Auth.Strategy.{is_active}
use abyte_tex.Database.{
  Prisma, Db, Table, Action, ◌>>=◌, ◌>>◌, pure, throw, or_throw, reject_if, transaction, log, users,
  login_history, refresh_tokens, password_reset_tokens,
}
use abyte_tex.Database.Raw

pub record AuthTokens : Type 0 where
  pub access_token : ℕ
  pub refresh_token : ℕ
  pub refresh_token_expires_at : ℕ

-- 30 days and one hour, in milliseconds.
abbrev pub refresh_token_ttl : ℕ
refresh_token_ttl = 30 * 24 * 60 * 60 * 1000

abbrev pub reset_token_ttl : ℕ
reset_token_ttl = 60 * 60 * 1000

abbrev pub undeleted : Option User → Option User
undeleted none = none
undeleted (some user) = elim user.deleted_at [ none ↦ some user | some _ ↦ none ]

-- The guards `!stored || stored.revokedAt || stored.expiresAt < new Date()`.
abbrev pub usable_refresh : ℕ → Option RefreshToken → Option RefreshToken
usable_refresh now none = none
usable_refresh now (some t) = elim t.revoked_at [
  | none ↦ if ltb t.expires_at now then none else some t
  | some _ ↦ none
]

abbrev pub usable_reset : ℕ → Option PasswordResetToken → Option PasswordResetToken
usable_reset now none = none
usable_reset now (some t) = elim t.used_at [
  | none ↦ if ltb t.expires_at now then none else some t
  | some _ ↦ none
]

-- `where: { userId, revokedAt: null }`
abbrev pub is_live : RefreshToken → Bool
is_live t = elim t.revoked_at [ none ↦ Bool.true | some _ ↦ Bool.false ]

abbrev pub revoke : ℕ → RefreshToken → RefreshToken
revoke now t = record t { revoked_at = some now }

-- A reset activates an INVITED account and leaves every other status.
abbrev pub next_status : UserStatus → UserStatus
next_status UserStatus.invited = UserStatus.active
next_status s = s

-- The next number of a random draw.
abbrev pub draw : Action ℕ
draw db = (ok db.generated, record db { generated = db.generated + 1 })

module _ ⦃P : Prisma⦄ ⦃C : Crypto⦄ where
  -- `create` on a table whose token hashes are unique.
  unfoldable pub create_refresh_token : (ℕ → RefreshToken) → Action RefreshToken
  create_refresh_token row db =
      if any (λ t. t.token_hash == (row (P.cuid db.generated)).token_hash) db.access.refresh_tokens
      then (Result.err unique_violation, db)
      else Raw.create refresh_tokens row db

  unfoldable pub issue_tokens : ⦃J : Jwt⦄ → ℕ → ℕ → Action AuthTokens
  issue_tokens ⦃J⦄ now user_id = do
    n ← draw
    stored ← create_refresh_token (λ id. record {
      id = id;
      user_id = user_id;
      token_hash = C.hash_token (C.random_bytes n);
      expires_at = now + refresh_token_ttl;
      revoked_at = none;
    })
    pure (record {
      access_token = J.sign (record { sub = user_id; token_type = TokenType.access });
      refresh_token = C.random_bytes n;
      refresh_token_expires_at = now + refresh_token_ttl;
    })

  -- The two ways on from the check of a password.
  unfoldable pub refuse_password : User → Action (User × AuthTokens)
  refuse_password user = do
    Raw.create login_history (λ id. record { id = id; user_id = user.id; success = Bool.false })
    throw unauthorized

  unfoldable pub record_login : ℕ → User → Action User
  record_login now user = transaction (do
    Raw.create login_history (λ id. record { id = id; user_id = user.id; success = Bool.true })
    Raw.update users (λ u. u.id == user.id) (λ u. record u { last_login_at = some now }))

  unfoldable pub start_session : ⦃J : Jwt⦄ → ℕ → User → Action (User × AuthTokens)
  start_session now user = do
    reject_if (not (same_user_status user.status UserStatus.active)) forbidden
    record_login now user
    tokens ← issue_tokens now user.id
    pure (user, tokens)

  unfoldable pub login : ⦃J : Jwt⦄ → ℕ → ℕ → ℕ → Action (User × AuthTokens)
  login now email password = do
    found ← Raw.find_first users (λ u. u.email == email)
    user ← or_throw (undeleted found) unauthorized
    (if C.verify_password user.password_hash password
        then start_session now user
        else refuse_password user)

  -- Rotation: the used token is revoked, and a new pair is issued.
  unfoldable pub rotate : ⦃J : Jwt⦄ → ℕ → RefreshToken → Action (ℕ × AuthTokens)
  rotate now stored = do
    Raw.update refresh_tokens (λ t. t.id == stored.id) (revoke now)
    tokens ← issue_tokens now stored.user_id
    pure (stored.user_id, tokens)

  unfoldable pub refresh : ⦃J : Jwt⦄ → ℕ → ℕ → Action (ℕ × AuthTokens)
  refresh now refresh_token = do
    found ← Raw.find_first refresh_tokens (λ t. t.token_hash == C.hash_token refresh_token)
    stored ← or_throw (usable_refresh now found) unauthorized
    rotate now stored

  unfoldable pub logout : TenantRequestContext → ℕ → Action (Unit {0})
  logout ctx refresh_token = do
    Raw.update_many refresh_tokens (λ t. (t.token_hash == C.hash_token refresh_token) && is_live t)
        (revoke ctx.now)
    log ctx Schema.AuditAction.logout Schema.EntityType.no_entity 0

  -- The transaction of a change of password, which ends the user's sessions.
  unfoldable pub replace_password : ℕ → ℕ → ℕ → Action (Unit {0})
  replace_password now user_id password_hash = transaction (do
    Raw.update users (λ u. u.id == user_id) (λ u. record u { password_hash = password_hash })
    Raw.update_many refresh_tokens (λ t. (t.user_id == user_id) && is_live t) (revoke now))

  unfoldable pub change_password : TenantRequestContext → ℕ → ℕ → ℕ → Action (Unit {0})
  change_password ctx user_id current_password new_password = do
    found ← Raw.find_first users (λ u. u.id == user_id)
    user ← or_throw found record_not_found
    reject_if (not (C.verify_password user.password_hash current_password)) unauthorized
    salt ← draw
    replace_password ctx.now user_id (C.hash_password salt new_password)
    log ctx Schema.AuditAction.update Schema.EntityType.user user_id

  abbrev pub create_reset : ℕ → User → Action (Option (ℕ × ℕ))
  create_reset now user = do
    n ← draw
    reset ← Raw.create password_reset_tokens (λ id. record {
      id = id;
      user_id = user.id;
      token_hash = C.hash_token (C.random_bytes n);
      expires_at = now + reset_token_ttl;
      used_at = none;
    })
    pure (some (user.email, C.random_bytes n))

  -- The result is the mail that is sent: its address and the token of its link.
  unfoldable pub forgot_password : ℕ → ℕ → Action (Option (ℕ × ℕ))
  forgot_password now email = do
    found ← Raw.find_first users (λ u. u.email == email)
    elim found [
      | none ↦ pure none
      | some user ↦ if is_active user then create_reset now user else pure none
    ]

  -- The transaction of a reset, given the new password's hash.
  abbrev pub spend_reset : ℕ → PasswordResetToken → Action (Unit {0})
  spend_reset now stored = do
    Raw.update password_reset_tokens (λ t. t.id == stored.id) (λ t. record t { used_at = some now })
    Raw.update_many refresh_tokens (λ t. (t.user_id == stored.user_id) && is_live t) (revoke now)

  unfoldable pub complete_reset : ℕ → PasswordResetToken → User → ℕ → Action (Unit {0})
  complete_reset now stored user password_hash = transaction (do
    Raw.update users (λ u. u.id == stored.user_id)
        (λ u. record u { password_hash = password_hash; status = next_status user.status })
    spend_reset now stored)

  unfoldable pub reset_password : ℕ → ℕ → ℕ → Action (Unit {0})
  reset_password now token new_password = do
    found ← Raw.find_first password_reset_tokens (λ t. t.token_hash == C.hash_token token)
    stored ← or_throw (usable_reset now found) unauthorized
    owner ← Raw.find_first users (λ u. u.id == stored.user_id)
    user ← or_throw owner internal
    salt ← draw
    complete_reset now stored user (C.hash_password salt new_password)
