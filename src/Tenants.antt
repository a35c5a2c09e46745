-- ===== src/Tenants.antt =====
-- The tenants of the platform (apps/api/src/tenants/tenants.service.ts). Settings and contact data
-- are left out; the mail of a new tenant is the token of its link.
pub mod Seeding
pub mod Provisioning
use abyte_tex.Base.{ℕ, ◌+◌, Bool, Option, none, some, List, [], ◌∷◌, ◌==◌, if◌then◌else◌, truthy}
use abyte_tex.Http.{conflict, forbidden, internal, not_found}
use abyte_tex.Context.{TenantRequestContext}
use abyte_tex.Rbac
use abyte_tex.Rbac.{RoleCode, same_role}
use abyte_tex.Schema
use abyte_tex.Schema.{Tenant, TenantStatus, User, UserStatus, PasswordResetToken, UserRole}
use abyte_tex.Auth.Libraries.{Crypto}
use abyte_tex.Auth.{draw}
use abyte_tex.Roles.{seed_tenant_roles}
use abyte_tex.Users.{set_password_token_ttl, is_some}
use abyte_tex.Database.{
  Prisma, Action, ◌>>=◌, ◌>>◌, pure, or_throw, reject_if, transaction, log, tenants, users,
  user_roles, password_reset_tokens,
}
use abyte_tex.Database.Raw
use abyte_tex.Maintenance.{or_keep}

pub record CreateTenantDto : Type 0 where
  pub company_name : ℕ
  pub slug : ℕ
  pub owner_email : ℕ

-- `roles[RoleCode.COMPANY_OWNER].id`, of the record that the seed returns.
abbrev pub role_id_of : RoleCode → List (RoleCode × ℕ) → Option ℕ
role_id_of code [] = none
role_id_of code (r ∷ rs) = if same_role r.0 code then some r.1 else role_id_of code rs

module _ ⦃P : Prisma⦄ where
  -- The owner, with the role.
  unfoldable pub create_owner : ⦃C : Crypto⦄ → CreateTenantDto → ℕ → ℕ → Action User
  create_owner ⦃C⦄ dto tenant_id role_id = do
    salt ← draw
    secret ← draw
    owner ← Raw.create users (λ id. record {
      id = id;
      tenant_id = some tenant_id;
      email = dto.owner_email;
      password_hash = C.hash_password salt (C.random_bytes secret);
      status = UserStatus.invited;
      is_platform_admin = Bool.false;
      last_login_at = none;
      deleted_at = none;
    })
    Raw.create user_roles (λ _. record { user_id = owner.id; role_id = role_id })
    pure owner

  unfoldable pub create_link : ⦃C : Crypto⦄ → ℕ → ℕ → Action ℕ
  create_link ⦃C⦄ now user_id = do
    n ← draw
    Raw.create password_reset_tokens (λ id. record {
      id = id;
      user_id = user_id;
      token_hash = C.hash_token (C.random_bytes n);
      expires_at = now + set_password_token_ttl;
      used_at = none;
    })
    pure (C.random_bytes n)

  -- The owner of the roles that were seeded.
  unfoldable pub appoint : ⦃C : Crypto⦄ → CreateTenantDto → ℕ → List (RoleCode × ℕ) → Action User
  appoint dto tenant_id seeded = do
    role_id ← or_throw (role_id_of Rbac.RoleCode.company_owner seeded) internal
    create_owner dto tenant_id role_id

  -- What the transaction returns, with the link of the owner.
  unfoldable pub finish : ⦃C : Crypto⦄ → ℕ → Tenant → User → Action (Tenant × User × ℕ)
  finish now tenant owner = do token ← create_link now owner.id; pure (tenant, owner, token)

  -- What the transaction does for the tenant that it made.
  unfoldable pub set_up : ⦃C : Crypto⦄ → ℕ → CreateTenantDto → Tenant → Action (Tenant × User × ℕ)
  set_up now dto tenant = do
    seeded ← seed_tenant_roles tenant.id
    owner ← appoint dto tenant.id seeded
    finish now tenant owner

  -- The transaction of a new tenant.
  unfoldable pub provision : ⦃C : Crypto⦄ → ℕ → CreateTenantDto → Action (Tenant × User × ℕ)
  provision now dto = transaction (do
    tenant ← Raw.create tenants (λ id. record {
      id = id;
      name = dto.company_name;
      slug = dto.slug;
      status = TenantStatus.trial;
    })
    set_up now dto tenant)

  module _ (ctx : TenantRequestContext) where
    unfoldable pub store_tenant : ⦃C : Crypto⦄ → CreateTenantDto → Action (Tenant × User × ℕ)
    store_tenant dto = do
      created ← provision ctx.now dto
      log ctx Schema.AuditAction.create Schema.EntityType.tenant created.0.id
      pure created

    unfoldable pub create_tenant : ⦃C : Crypto⦄ → CreateTenantDto → Action (Tenant × User × ℕ)
    create_tenant dto = do
      existing ← Raw.find_first tenants (λ t. t.slug == dto.slug)
      reject_if (is_some existing) conflict
      existing_user ← Raw.find_first users (λ u. u.email == dto.owner_email)
      reject_if (is_some existing_user) conflict
      store_tenant dto

    unfoldable pub get_tenant_by_id : ℕ → Action Tenant
    get_tenant_by_id id = do
      found ← Raw.find_first tenants (λ t. t.id == id)
      or_throw found not_found

    unfoldable pub update_tenant_status : ℕ → TenantStatus → Action Tenant
    update_tenant_status id next = do
      tenant ← get_tenant_by_id id
      updated ← Raw.update tenants (λ t. t.id == id) (λ t. record t { status = next })
      log ctx Schema.AuditAction.update Schema.EntityType.tenant id
      pure updated

    unfoldable pub get_own_tenant : Action Tenant
    get_own_tenant = do t ← or_throw (truthy ctx.tenant_id) forbidden; get_tenant_by_id t

    -- Of the settings, the name.
    unfoldable pub update_own_tenant : Option ℕ → Action Tenant
    update_own_tenant name = do
      t ← or_throw (truthy ctx.tenant_id) forbidden
      before ← get_tenant_by_id t
      updated ← Raw.update tenants (λ r. r.id == t) (λ r. record r { name = or_keep name r.name })
      log ctx Schema.AuditAction.config_change Schema.EntityType.tenant t
      pure updated
