-- ===== src/Auth/Tokens.antt =====
-- The life of refresh tokens: each operation issues and revokes them, and one that was used stays
-- useless.
use abyte_tex.Base.{
  ℕ, ◌≡◌, refl, sym, subst, Bool, true, false, some, List, ◌==◌, any, Option-cases, ◌+◌, arith,
  Bool-cases, inl, inr, Memᴰ,
}
use abyte_tex.Http.{Result, ok, err}
use abyte_tex.Context.{TenantRequestContext}
use abyte_tex.Schema.{User, UserStatus, same_user_status, RefreshToken}
use abyte_tex.Auth.Libraries.{Crypto, Jwt}
use abyte_tex.Auth.{
  AuthTokens, revoke, create_refresh_token, issue_tokens, refuse_password, record_login,
  start_session, login, refresh, rotate, usable_refresh, undeleted, logout,
}
use abyte_tex.Database.{
  Prisma, Db, Action, ◌>>=◌, transaction, users, login_history, pure, refresh_tokens,
}
use abyte_tex.Database.Raw
use abyte_tex.Database.Laws.{bind_ok}

module _ ⦃P : Prisma⦄ where
  -- How the table of refresh tokens changes: rows are revoked, and rows with a new hash are added.
  pub data Evolves : List RefreshToken → List RefreshToken → Type 0 where
    same : {l : List RefreshToken} → Evolves l l
    revoked :
        {l : List RefreshToken} (p : RefreshToken → Bool) (now : ℕ)
        → Evolves l (P.update p (revoke now) l)
    issued :
        {l : List RefreshToken} (t : RefreshToken)
        → any (λ s. s.token_hash == t.token_hash) l ≡ false
        → Evolves l (P.create t l)
    then_ : {l l' l'' : List RefreshToken} → Evolves l l' → Evolves l' l'' → Evolves l l''

  abbrev pub tokens : Db → List RefreshToken
  tokens db = db.access.refresh_tokens

  abbrev pub IsEvolving : {A : Type 0} → Action A → Type 0
  IsEvolving m = (db : Db) → Evolves (tokens db) (tokens (m db).1)

  pub IsEvolving-bind :
      {A B : Type 0} (m : Action A) (f : A → Action B)
      → IsEvolving m
      → ((a : A) → IsEvolving (f a))
      → IsEvolving (m >>= f)
  IsEvolving-bind {A} {B} m f h k db = go (m db) (h db)
    where
      go :
          (r : Result A × Db)
          → Evolves (tokens db) (tokens r.1)
          → Evolves (tokens db) (
              tokens (elim r.0 as (λ _. Result B × Db) [ ok a ↦ f a r.1 | err e ↦ (err e, r.1) ]).1)
      go (ok a, d) e = Evolves.then_ e (k a d)
      go (err x, d) e = e

  pub IsEvolving-transaction :
      {A : Type 0} (m : Action A) → IsEvolving m → IsEvolving (transaction m)
  IsEvolving-transaction {A} m h db = go (m db) (h db)
    where
      go :
          (r : Result A × Db)
          → Evolves (tokens db) (tokens r.1)
          → Evolves (tokens db) (
              tokens
                (elim r.0 as (λ _. Result A × Db) [ ok a ↦ (ok a, r.1) | err e ↦ (err e, db) ]).1)
      go (ok a, d) e = e
      go (err x, d) e = Evolves.same

  -- An action that leaves the table alone.
  IsEvolving-kept :
      {A : Type 0} (m : Action A) → ((db : Db) → tokens (m db).1 ≡ tokens db) → IsEvolving m
  IsEvolving-kept m h db = subst (λ l. Evolves (tokens db) l) (sym (h db)) Evolves.same

  update_revoked :
      (p : RefreshToken → Bool) (now : ℕ) → IsEvolving (Raw.update refresh_tokens p (revoke now))
  update_revoked p now db = elim (Option-cases (P.find_first p (tokens db))) [
    | inl e ↦ rw e Evolves.same
    | inr (r, e) ↦ rw e (Evolves.revoked p now)
  ]

  module _ ⦃C : Crypto⦄ where
    create_refresh_token-kept : (row : ℕ → RefreshToken) → IsEvolving (create_refresh_token row)
    unfolding create_refresh_token
    create_refresh_token-kept row db =
        elim (Bool-cases
          (any (λ t. t.token_hash == (row (P.cuid db.generated)).token_hash) (tokens db))) [
            | inl e ↦ rw e Evolves.same
            | inr e ↦ rw e (Evolves.issued (row (P.cuid db.generated)) e)
          ]

    pub logout-kept : (ctx : TenantRequestContext) (token : ℕ) → IsEvolving (logout ctx token)
    unfolding logout
    logout-kept ctx token db = Evolves.revoked _ ctx.now

    pub update_users-kept : (p : User → Bool) (f : User → User) → IsEvolving (Raw.update users p f)
    update_users-kept p f db = elim (Option-cases (P.find_first p db.access.users)) [
      | inl e ↦ rw e Evolves.same
      | inr (r, e) ↦ rw e Evolves.same
    ]

    record_login-kept : (now : ℕ) (user : User) → IsEvolving (record_login now user)
    unfolding record_login
    record_login-kept now user =
        IsEvolving-transaction
          (Raw.create login_history (λ id. record { id = id; user_id = user.id; success = true })
            >>= λ _.
                Raw.update users (λ u. u.id == user.id)
                  (λ u. record u { last_login_at = some now }))
          (IsEvolving-bind
            (Raw.create login_history (λ id. record { id = id; user_id = user.id; success = true }))
            (λ _.
              Raw.update users (λ u. u.id == user.id) (λ u. record u { last_login_at = some now }))
            (λ d. Evolves.same)
            (λ _.
              update_users-kept (λ u. u.id == user.id)
                (λ u. record u { last_login_at = some now })))

    module _ ⦃J : Jwt⦄ where
      pub issue_tokens-kept : (now user_id : ℕ) → IsEvolving (issue_tokens now user_id)
      unfolding issue_tokens
      issue_tokens-kept now user_id db =
          IsEvolving-bind (create_refresh_token _) (λ stored. pure _) (create_refresh_token-kept _)
            (λ stored d. Evolves.same) (record db { generated = db.generated + 1 })

      rotate-kept : (now : ℕ) (stored : RefreshToken) → IsEvolving (rotate now stored)
      unfolding rotate
      rotate-kept now stored =
          IsEvolving-bind (Raw.update refresh_tokens (λ t. t.id == stored.id) (revoke now))
            (λ _. issue_tokens now stored.user_id >>= λ t. pure (stored.user_id, t))
            (update_revoked (λ t. t.id == stored.id) now)
            (λ _.
              IsEvolving-bind (issue_tokens now stored.user_id) (λ t. pure (stored.user_id, t))
                (issue_tokens-kept now stored.user_id) (λ t d. Evolves.same))

      abbrev pub revoked_db : ℕ → RefreshToken → Db → Db
      revoked_db now stored db = record db {
        access = record db.access {
          refresh_tokens = P.update (λ t. t.id == stored.id) (revoke now) (tokens db);
        };
      }

      -- The rotation of a stored token begins by revoking it.
      pub rotate_revokes :
          (now : ℕ) (stored : RefreshToken) (db : Db)
          → Memᴰ stored (tokens db)
          → Evolves
              (P.update (λ t. t.id == stored.id) (revoke now) (tokens db))
              (tokens (rotate now stored db).1)
      unfolding rotate
      rotate_revokes now stored db m =
          elim (Option-cases (P.find_first (λ t. t.id == stored.id) (tokens db))) [
            | inl e ↦
                absurd (
                  ground (arith, P.find_first-none (λ t. t.id == stored.id) (tokens db) stored e m))
            | inr (r, e) ↦
                subst
                  (λ (x : Result (ℕ × AuthTokens) × Db).
                    Evolves (tokens (revoked_db now stored db)) (tokens x.1))
                  (sym (
                    bind_ok (Raw.update refresh_tokens (λ t. t.id == stored.id) (revoke now))
                      (λ _. issue_tokens now stored.user_id >>= λ t. pure (stored.user_id, t)) db
                      (updated r e)))
                  (IsEvolving-bind (issue_tokens now stored.user_id) (λ t. pure (stored.user_id, t))
                    (issue_tokens-kept now stored.user_id) (λ t d. Evolves.same)
                    (revoked_db now stored db))
          ]
        where
          updated :
              (r : RefreshToken)
              → P.find_first (λ t. t.id == stored.id) (tokens db) ≡ some r
              → Raw.update refresh_tokens (λ t. t.id == stored.id) (revoke now) db
                ≡ (ok (revoke now r), revoked_db now stored db)
          updated r e = rw e refl

      pub refresh-kept : (now token : ℕ) → IsEvolving (refresh now token)
      unfolding refresh
      refresh-kept now token db =
          elim (Option-cases (
            usable_refresh now
              (P.find_first (λ t. t.token_hash == C.hash_token token) (tokens db)))) [
                | inl e ↦ rw e Evolves.same
                | inr (stored, e) ↦ rw e (rotate-kept now stored db)
              ]

      start_session-kept : (now : ℕ) (user : User) → IsEvolving (start_session now user)
      unfolding start_session
      start_session-kept now user db =
          elim (Bool-cases (same_user_status user.status UserStatus.active)) [
            | inl e ↦ rw e (
                IsEvolving-bind (record_login now user)
                  (λ _. issue_tokens now user.id >>= λ t. pure (user, t))
                  (record_login-kept now user)
                  (λ _.
                    IsEvolving-bind (issue_tokens now user.id) (λ t. pure (user, t))
                      (issue_tokens-kept now user.id) (λ t d. Evolves.same))
                  db)
            | inr e ↦ rw e Evolves.same
          ]

      pub login-kept : (now email password : ℕ) → IsEvolving (login now email password)
      unfolding login refuse_password
      login-kept now email password db =
          elim (Option-cases (undeleted (P.find_first (λ u. u.email == email) db.access.users))) [
            | inl e ↦ rw e Evolves.same
            | inr (user, e) ↦
                rw e (elim (Bool-cases (C.verify_password user.password_hash password)) [
                  | inl v ↦ rw v (start_session-kept now user db)
                  | inr v ↦ rw v Evolves.same
                ])
          ]
