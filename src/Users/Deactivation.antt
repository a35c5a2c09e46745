-- ===== src/Users/Deactivation.antt =====
-- Locking a user out ends the sessions of the user.
use abyte_tex.Base.{
  ℕ, ◌≡◌, refl, subst, Bool, Option, ◌∙◌, true, false, some, ◌==◌, ◌&&◌, All, All-mem, All-image,
  arith, if◌then◌else◌, Bool-cases, inl, inr,
}
use abyte_tex.Http.{Result, ok, err, unauthorized}
use abyte_tex.Context.{TenantRequestContext}
use abyte_tex.Schema.{User, UserStatus, RefreshToken, EntityType, AuditAction}
use abyte_tex.Auth.Libraries.{Crypto, Jwt}
use abyte_tex.Auth.{is_live, revoke, refresh}
use abyte_tex.Auth.Replay.{revoked_unusable}
use abyte_tex.Users.{
  UpdateUserDto, locks_out, check_update, get_user_by_id, store_user, end_sessions, finish_update,
  update_user,
}
use abyte_tex.Database.{Prisma, Db, ◌>>=◌, log}
use abyte_tex.Database.Effects.{IsReading, IsReading-Ensures}
use abyte_tex.Database.Laws.{Ensures, Ensures-bind}

-- No refresh token of the user is live.
abbrev pub HasNoSession : ℕ → Db → Type 0
HasNoSession id db =
    All (λ t. (t.user_id == id) ≡ true → is_live t ≡ false) db.access.refresh_tokens

Ensures-any : {A : Type 0} (r : Result A × Db) → Ensures (λ _ _. Unit) r
Ensures-any (ok a, d) = tt
Ensures-any (err x, d) = tt

-- A status that an update writes is one of those that lock the user out.
abbrev pub is_lock : Option UserStatus → Bool
is_lock (some UserStatus.inactive) = true
is_lock (some UserStatus.locked) = true
is_lock _ = false

locks_out_lem : (s : Option UserStatus) → locks_out s ≡ is_lock s
locks_out_lem s = ground arith

module _ ⦃P : Prisma⦄ (ctx : TenantRequestContext) (id : ℕ) (dto : UpdateUserDto)
    (locking : is_lock dto.status ≡ true) where
  end_sessions-HasNoSession :
      (db : Db) → Ensures (λ _ d. HasNoSession id d) (end_sessions ctx id dto db)
  unfolding end_sessions
  end_sessions-HasNoSession db = rw (locks_out_lem dto.status ∙ locking) (
      rw P.update_lem (
        All-image (λ t. (t.user_id == id) ≡ true → is_live t ≡ false)
          (λ r. if (r.user_id == id) && is_live r then revoke ctx.now r else r)
          db.access.refresh_tokens
          (λ r m. elim (Bool-cases ((r.user_id == id) && is_live r)) [
            | inl e ↦ rw e (λ h. refl)
            | inr e ↦ rw e (λ h. ground arith)
          ])))

  get_user-IsReading : (user_id : ℕ) → IsReading (get_user_by_id ctx user_id)
  unfolding get_user_by_id
  get_user-IsReading user_id db = ground arith

  finish_update-HasNoSession :
      (updated : User) (db : Db)
      → Ensures (λ _ d. HasNoSession id d) (finish_update ctx id dto updated db)
  unfolding finish_update
  finish_update-HasNoSession updated db =
      Ensures-bind (λ _ d. HasNoSession id d) (end_sessions ctx id dto)
        (λ _. log ctx AuditAction.update EntityType.user id >>= λ _. get_user_by_id ctx updated.id)
        db (end_sessions-HasNoSession db)
        (λ _ d h.
          IsReading-Ensures (HasNoSession id) (get_user_by_id ctx updated.id) _
            (get_user-IsReading updated.id) h)

  update_user-HasNoSession :
      (db : Db) → Ensures (λ _ d. HasNoSession id d) (update_user ctx id dto db)
  unfolding update_user
  update_user-HasNoSession db =
      Ensures-bind (λ _ d. HasNoSession id d) (check_update ctx id dto)
        (λ _. store_user ctx id dto >>= finish_update ctx id dto) db
        (Ensures-any (check_update ctx id dto db))
        (λ _ d _.
          Ensures-bind (λ _ d. HasNoSession id d) (store_user ctx id dto) (finish_update ctx id dto)
            d (Ensures-any (store_user ctx id dto d))
            (λ updated d _. finish_update-HasNoSession updated d))

  -- Once an administrator has set a user to INACTIVE or LOCKED, and the request returned, none of
  -- the user's refresh tokens is of use: a refresh with the one that is stored for a token, at
  -- whatever time, is a 401 and changes nothing.
  pub update_user-refresh :
      ⦃C : Crypto⦄ ⦃J : Jwt⦄ (later token : ℕ) (db db' : Db) (updated : User) (s : RefreshToken)
      → update_user ctx id dto db ≡ (ok updated, db')
      → P.find_first (λ t. t.token_hash == C.hash_token token) db'.access.refresh_tokens ≡ some s
      → (s.user_id == id) ≡ true
      → refresh later token db' ≡ (err unauthorized, db')
  unfolding refresh
  update_user-refresh ⦃C⦄ later token db db' updated s ran found owner = rw found (
      rw
        (revoked_unusable later s (
          All-mem (λ t. (t.user_id == id) ≡ true → is_live t ≡ false) db'.access.refresh_tokens
            (subst (Ensures (λ _ d. HasNoSession id d)) ran (update_user-HasNoSession db))
            (P.find_first-some (λ t. t.token_hash == C.hash_token token) db'.access.refresh_tokens s
              found).0
            owner))
        refl)
