-- ===== src/Auth/Revocation.antt =====
-- The refresh tokens under a new password, which revokes those of the user.
use abyte_tex.Base.{ℕ, Bool, some, ◌==◌, ◌&&◌, Option-cases, ◌+◌, Bool-cases, inl, inr}
use abyte_tex.Context.{TenantRequestContext}
use abyte_tex.Schema
use abyte_tex.Schema.{PasswordResetToken, User, UserStatus, same_user_status, RefreshToken}
use abyte_tex.Auth.Libraries.{Crypto}
use abyte_tex.Auth.Strategy.{is_active}
use abyte_tex.Auth.{
  is_live, revoke, usable_reset, replace_password, complete_reset, spend_reset, next_status,
  change_password, forgot_password, reset_password,
}
use abyte_tex.Database.{Prisma, ◌>>=◌, users, password_reset_tokens, log, refresh_tokens}
use abyte_tex.Database.Raw
use abyte_tex.Auth.Tokens.{
  Evolves, IsEvolving, IsEvolving-bind, IsEvolving-transaction, update_users-kept,
}

module _ ⦃P : Prisma⦄ ⦃C : Crypto⦄ where
  pub forgot_password-kept : (now email : ℕ) → IsEvolving (forgot_password now email)
  unfolding forgot_password
  forgot_password-kept now email db =
      elim (Option-cases (P.find_first (λ u. u.email == email) db.access.users)) [
        | inl e ↦ rw e Evolves.same
        | inr (user, e) ↦ rw e (elim (Bool-cases (is_active user)) [
          | inl a ↦ rw a Evolves.same
          | inr a ↦ rw a Evolves.same
        ])
      ]

  replace_password-kept :
      (now user_id password_hash : ℕ) → IsEvolving (replace_password now user_id password_hash)
  unfolding replace_password
  replace_password-kept now user_id password_hash =
      IsEvolving-transaction
        (Raw.update users (λ u. u.id == user_id) (λ u. record u { password_hash = password_hash })
          >>= λ _.
              Raw.update_many refresh_tokens (λ t. (t.user_id == user_id) && is_live t)
                (revoke now))
        (IsEvolving-bind
          (Raw.update users (λ u. u.id == user_id)
            (λ u. record u { password_hash = password_hash }))
          (λ _.
            Raw.update_many refresh_tokens (λ t. (t.user_id == user_id) && is_live t) (revoke now))
          (update_users-kept (λ u. u.id == user_id)
            (λ u. record u { password_hash = password_hash }))
          (λ _ d. Evolves.revoked _ now))

  update_resets-kept :
      (p : PasswordResetToken → Bool) (f : PasswordResetToken → PasswordResetToken)
      → IsEvolving (Raw.update password_reset_tokens p f)
  update_resets-kept p f db = elim (Option-cases (P.find_first p db.access.password_reset_tokens)) [
    | inl e ↦ rw e Evolves.same
    | inr (r, e) ↦ rw e Evolves.same
  ]

  complete_reset-kept :
      (now : ℕ) (stored : PasswordResetToken) (user : User) (password_hash : ℕ)
      → IsEvolving (complete_reset now stored user password_hash)
  unfolding complete_reset
  complete_reset-kept now stored user password_hash =
      IsEvolving-transaction
        (Raw.update users (λ u. u.id == stored.user_id) activate >>= λ _. spend_reset now stored)
        (IsEvolving-bind (Raw.update users (λ u. u.id == stored.user_id) activate)
          (λ _. spend_reset now stored) (update_users-kept (λ u. u.id == stored.user_id) activate)
          (λ _.
            IsEvolving-bind
              (Raw.update password_reset_tokens (λ t. t.id == stored.id)
                (λ t. record t { used_at = some now }))
              (λ _.
                Raw.update_many refresh_tokens (λ t. (t.user_id == stored.user_id) && is_live t)
                  (revoke now))
              (update_resets-kept (λ t. t.id == stored.id) (λ t. record t { used_at = some now }))
              (λ _ d. Evolves.revoked _ now)))
    where
      activate : User → User
      activate u = record u { password_hash = password_hash; status = next_status user.status }

  -- A new password, and the end of the user's sessions.
  pub change_password-kept :
      (ctx : TenantRequestContext) (user_id current_password new_password : ℕ)
      → IsEvolving (change_password ctx user_id current_password new_password)
  unfolding change_password
  change_password-kept ctx user_id current_password new_password db =
      elim (Option-cases (P.find_first (λ u. u.id == user_id) db.access.users)) [
        | inl e ↦ rw e Evolves.same
        | inr (user, e) ↦
            rw e (elim (Bool-cases (C.verify_password user.password_hash current_password)) [
              | inl a ↦ rw a (
                  IsEvolving-bind
                    (replace_password ctx.now user_id (C.hash_password db.generated new_password))
                    (λ _. log ctx Schema.AuditAction.update Schema.EntityType.user user_id)
                    (replace_password-kept ctx.now user_id
                      (C.hash_password db.generated new_password))
                    (λ _ d. Evolves.same) (record db { generated = db.generated + 1 }))
              | inr a ↦ rw a Evolves.same
            ])
      ]

  pub reset_password-kept :
      (now token new_password : ℕ) → IsEvolving (reset_password now token new_password)
  unfolding reset_password
  reset_password-kept now token new_password db =
      elim (Option-cases (
        usable_reset now (
          P.find_first (λ t. t.token_hash == C.hash_token token)
            db.access.password_reset_tokens))) [
              | inl e ↦ rw e Evolves.same
              | inr (stored, e) ↦
                  rw e
                    (elim (Option-cases
                      (P.find_first (λ u. u.id == stored.user_id) db.access.users)) [
                        | inl f ↦ rw f Evolves.same
                        | inr (user, f) ↦ rw f (
                            complete_reset-kept now stored user
                              (C.hash_password db.generated new_password)
                              (record db { generated = db.generated + 1 }))
                      ])
            ]
