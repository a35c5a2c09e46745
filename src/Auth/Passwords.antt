-- ===== src/Auth/Passwords.antt =====
-- The reset of a password.
use abyte_tex.Base.{
  ℕ, ◌+◌, ◌≡◌, refl, true, false, none, some, ◌==◌, ◌&&◌, if◌then◌else◌, ltb, All, All-image, arith,
  Bool-cases, inl, inr,
}
use abyte_tex.Http.{ok, err, unauthorized}
use abyte_tex.Schema.{User, UserStatus, same_user_status, PasswordResetToken, RefreshToken}
use abyte_tex.Auth.Libraries.{Crypto}
use abyte_tex.Auth.{next_status, is_live, revoke, complete_reset, reset_password}
use abyte_tex.Database.{Prisma, Db}

next_status_lem :
    (s : UserStatus)
    → next_status s ≡ (if same_user_status s UserStatus.invited then UserStatus.active else s)
next_status_lem s = ground arith

module _ ⦃P : Prisma⦄ ⦃C : Crypto⦄ (now token new_password : ℕ) (db : Db)
    (stored : PasswordResetToken) (user : User) where
  abbrev pub ended : Db
  ended = record db {
    access = record db.access {
      users =
          P.update (λ u. u.id == stored.user_id)
            (λ u. record u {
              password_hash = C.hash_password db.generated new_password;
              status =
                  if same_user_status user.status UserStatus.invited
                  then UserStatus.active
                  else user.status;
            })
            db.access.users;
      password_reset_tokens =
          P.update (λ t. t.id == stored.id) (λ t. record t { used_at = some now })
            db.access.password_reset_tokens;
      refresh_tokens =
          P.update (λ t. (t.user_id == stored.user_id) && is_live t) (revoke now)
            db.access.refresh_tokens;
    };
    generated = db.generated + 1;
  }

  -- Nobody's session of the user is left.
  abbrev pub IsOver : RefreshToken → Type 0
  IsOver t = (t.user_id == stored.user_id) ≡ true → is_live t ≡ false

  module _
      (found : P.find_first
          (λ t. t.token_hash == C.hash_token token)
          db.access.password_reset_tokens
        ≡ some stored)
      (owner : P.find_first (λ u. u.id == stored.user_id) db.access.users ≡ some user)
      (known : P.find_first (λ t. t.id == stored.id) db.access.password_reset_tokens
        ≡ some stored) where
    reset_password_step : reset_password now token new_password db ≡ (
        if ltb stored.expires_at now
        then (err unauthorized, db)
        else elim stored.used_at [ none ↦ (ok tt, ended) | some _ ↦ (err unauthorized, db) ])
    unfolding reset_password complete_reset
    reset_password_step = ground (arith, next_status_lem user.status)

    ends_sessions : All IsOver ended.access.refresh_tokens
    ends_sessions = rw P.update_lem (
        All-image IsOver
          (λ r. if (r.user_id == stored.user_id) && is_live r then revoke now r else r)
          db.access.refresh_tokens
          (λ r m. elim (Bool-cases ((r.user_id == stored.user_id) && is_live r)) [
            | inl e ↦ rw e (λ h. refl)
            | inr e ↦ rw e (λ h. ground arith)
          ]))

    -- A reset with a stored token whose user exists succeeds exactly when the token was not used and
    -- has not expired; otherwise it is a 401 and changes nothing. It then stores the new password's
    -- hash, which the password verifies against, makes an INVITED account ACTIVE and leaves every
    -- other status as it is, marks the token used, and leaves the user no refresh token that is not
    -- revoked.
    pub reset_password_lem :
        (reset_password now token new_password db ≡ (
          if ltb stored.expires_at now
          then (err unauthorized, db)
          else elim stored.used_at [ none ↦ (ok tt, ended) | some _ ↦ (err unauthorized, db) ]))
        × All IsOver ended.access.refresh_tokens
        × (C.verify_password (C.hash_password db.generated new_password) new_password ≡ true)
    reset_password_lem =
        (reset_password_step, ends_sessions, C.verify-hash db.generated new_password)
