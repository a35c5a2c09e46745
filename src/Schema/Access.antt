-- ===== src/Schema/Access.antt =====
-- Users, their credentials, roles and permissions (prisma/schema.prisma). The addresses and agents
-- of the clients are left out.
use abyte_tex.Base.{ℕ, Option, Bool, ◌==◌}
use abyte_tex.Rbac.{RoleCode, Permission}

pub data TenantStatus : Type 0 where
  trial active suspended cancelled : TenantStatus

-- Settings and contact data of a tenant are left out.
pub record Tenant : Type 0 where
  pub id : ℕ
  pub name : ℕ
  pub slug : ℕ
  pub status : TenantStatus

pub data UserStatus : Type 0 where
  active inactive invited locked : UserStatus

pub record User : Type 0 where
  pub id : ℕ
  pub tenant_id : Option ℕ
  pub email : ℕ
  pub password_hash : ℕ
  pub status : UserStatus
  pub is_platform_admin : Bool
  pub last_login_at : Option ℕ
  pub deleted_at : Option ℕ

pub record LoginHistory : Type 0 where
  pub id : ℕ
  pub user_id : ℕ
  pub success : Bool

pub record RefreshToken : Type 0 where
  pub id : ℕ
  pub user_id : ℕ
  pub token_hash : ℕ
  pub expires_at : ℕ
  pub revoked_at : Option ℕ

pub record PasswordResetToken : Type 0 where
  pub id : ℕ
  pub user_id : ℕ
  pub token_hash : ℕ
  pub expires_at : ℕ
  pub used_at : Option ℕ

pub record Role : Type 0 where
  pub id : ℕ
  pub tenant_id : Option ℕ
  pub code : RoleCode
  pub is_system : Bool

-- A row of `permissions`: what it grants, and to which role.
pub record RolePermission : Type 0 where
  pub role_id : ℕ
  pub grants : Permission

pub record UserRole : Type 0 where
  pub user_id : ℕ
  pub role_id : ℕ

pub data PermissionEffect : Type 0 where
  allow deny : PermissionEffect

pub record UserPermissionOverride : Type 0 where
  pub user_id : ℕ
  pub permission : Permission
  pub effect : PermissionEffect

pub record UserFactoryAccess : Type 0 where
  pub user_id : ℕ
  pub factory_id : ℕ

abbrev pub user_status_index : UserStatus → ℕ
user_status_index UserStatus.active = 0
user_status_index UserStatus.inactive = 1
user_status_index UserStatus.invited = 2
user_status_index UserStatus.locked = 3

abbrev pub same_user_status : UserStatus → UserStatus → Bool
same_user_status a b = user_status_index a == user_status_index b
