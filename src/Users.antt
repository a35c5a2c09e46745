-- ===== src/Users.antt =====
-- The users of a tenant (apps/api/src/users/users.service.ts). Names and telephone numbers are left
-- out; the mail of an invitation is the token of its link.
pub mod Deactivation
use abyte_tex.Base.{
  ℕ, ◌+◌, ◌*◌, Bool, Option, none, some, List, [], ◌∷◌, ◌==◌, ◌&&◌, ◌||◌, not, any, length,
  if◌then◌else◌,
}
use abyte_tex.Http.{Result, ok, conflict, not_found}
use abyte_tex.Context.{TenantRequestContext, includes}
use abyte_tex.Schema
use abyte_tex.Schema.{
  User, UserStatus, same_user_status, PasswordResetToken, Role, UserRole, UserFactoryAccess,
  Factory,
}
use abyte_tex.Auth.Libraries.{Crypto}
use abyte_tex.Auth.{is_live, revoke, draw}
use abyte_tex.Database.{
  Prisma, Db, Action, ◌>>=◌, ◌>>◌, pure, throw, or_throw, reject_if, for_each, transaction, log,
  users, roles, factories, user_roles, factory_access, refresh_tokens, password_reset_tokens,
  find_first, find_many, create, update,
}
use abyte_tex.Database.Raw

-- 7 days, in milliseconds.
abbrev pub set_password_token_ttl : ℕ
set_password_token_ttl = 7 * 24 * 60 * 60 * 1000

pub record InviteUserDto : Type 0 where
  pub email : ℕ
  pub role_ids : List ℕ
  pub factory_ids : List ℕ

pub record UpdateUserDto : Type 0 where
  pub status : Option UserStatus
  pub role_ids : Option (List ℕ)
  pub factory_ids : Option (List ℕ)

abbrev pub is_some : {A : Type 0} → Option A → Bool
is_some none = Bool.false
is_some (some a) = Bool.true

abbrev pub locks_out : Option UserStatus → Bool
locks_out none = Bool.false
locks_out (some s) = same_user_status s UserStatus.inactive || same_user_status s UserStatus.locked

module _ ⦃P : Prisma⦄ (ctx : TenantRequestContext) where
  -- The scoped reads that refuse an identifier of another tenant.
  unfoldable pub check_roles : List ℕ → Action (Unit {0})
  check_roles role_ids = do
    found ← find_many roles ctx (λ r. includes r.id role_ids)
    reject_if (not (length found == length role_ids)) not_found

  unfoldable pub check_factories : List ℕ → Action (Unit {0})
  check_factories factory_ids = do
    found ← find_many factories ctx (λ f. includes f.id factory_ids)
    reject_if (not (length found == length factory_ids)) not_found

  -- The rows of the two join tables.
  abbrev pub add_role : ℕ → ℕ → Action (Unit {0})
  add_role user_id role_id db = (
    ok tt,
    user_roles.put (P.create (record { user_id = user_id; role_id = role_id }) (user_roles.rows db))
        db,
  )

  abbrev pub add_factory : ℕ → ℕ → Action (Unit {0})
  add_factory user_id factory_id db = (
    ok tt,
    factory_access.put
        (P.create (record { user_id = user_id; factory_id = factory_id }) (factory_access.rows db))
        db,
  )

  unfoldable pub insert_user : ⦃C : Crypto⦄ → InviteUserDto → Action User
  insert_user ⦃C⦄ dto = do
    salt ← draw
    secret ← draw
    user ← create users ctx (λ t id. record {
      id = id;
      tenant_id = some t;
      email = dto.email;
      password_hash = C.hash_password salt (C.random_bytes secret);
      status = UserStatus.invited;
      is_platform_admin = Bool.false;
      last_login_at = none;
      deleted_at = none;
    })
    for_each dto.role_ids (add_role user.id)
    for_each dto.factory_ids (add_factory user.id)
    pure user

  -- The result is the user and the token that is mailed to it.
  unfoldable pub invite_user : ⦃C : Crypto⦄ → InviteUserDto → Action (User × ℕ)
  invite_user ⦃C⦄ dto = do
    existing ← Raw.find_first users (λ u. u.email == dto.email)
    reject_if (is_some existing) conflict
    check_roles dto.role_ids
    (if length dto.factory_ids == 0 then pure tt else check_factories dto.factory_ids)
    user ← insert_user dto
    n ← draw
    Raw.create password_reset_tokens (λ id. record {
      id = id;
      user_id = user.id;
      token_hash = C.hash_token (C.random_bytes n);
      expires_at = ctx.now + set_password_token_ttl;
      used_at = none;
    })
    log ctx Schema.AuditAction.create Schema.EntityType.user user.id
    pure (user, C.random_bytes n)

  unfoldable pub get_user_by_id : ℕ → Action User
  get_user_by_id id = do found ← find_first users ctx (λ u. u.id == id); or_throw found not_found

  abbrev pub if_given : Option (List ℕ) → (List ℕ → Action (Unit {0})) → Action (Unit {0})
  if_given none f = pure tt
  if_given (some ids) f = f ids

  unfoldable pub replace_roles : ℕ → List ℕ → Action (Unit {0})
  replace_roles id role_ids = do
    Raw.delete_many user_roles (λ r. r.user_id == id)
    for_each role_ids (add_role id)

  unfoldable pub replace_factories : ℕ → List ℕ → Action (Unit {0})
  replace_factories id factory_ids = do
    Raw.delete_many factory_access (λ f. f.user_id == id)
    for_each factory_ids (add_factory id)

  unfoldable pub store_user : ℕ → UpdateUserDto → Action User
  store_user id dto = transaction (do
    user ←
        update users ctx (λ u. u.id == id)
          (λ u. record u { status = elim dto.status [ none ↦ u.status | some s ↦ s ] })
    if_given dto.role_ids (replace_roles id)
    if_given dto.factory_ids (replace_factories id)
    pure user)

  -- The sessions of a user who is locked out end.
  unfoldable pub end_sessions : ℕ → UpdateUserDto → Action (Unit {0})
  end_sessions id dto =
      if locks_out dto.status
      then Raw.update_many refresh_tokens (λ t. (t.user_id == id) && is_live t) (revoke ctx.now)
      else pure tt

  -- What follows the transaction of an update, and the checks before it.
  unfoldable pub finish_update : ℕ → UpdateUserDto → User → Action User
  finish_update id dto updated = do
    end_sessions id dto
    log ctx Schema.AuditAction.update Schema.EntityType.user id
    get_user_by_id updated.id

  unfoldable pub check_update : ℕ → UpdateUserDto → Action User
  check_update id dto = do
    existing ← get_user_by_id id
    if_given dto.role_ids check_roles
    if_given dto.factory_ids check_factories
    pure existing

  unfoldable pub update_user : ℕ → UpdateUserDto → Action User
  update_user id dto = do
    existing ← check_update id dto
    updated ← store_user id dto
    finish_update id dto updated
