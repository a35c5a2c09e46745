-- ===== src/Tests/AccessSamples.antt =====
-- Cryptography on numbers, and the users and credentials of the sample.
use abyte_tex.Base.{
  ℕ, ◌+◌, ◌*◌, ◌/◌, ◌≡◌, ◌==◌, ==_refl, true, false, Option, none, some, [], ◌∷◌, if◌then◌else◌,
  arith,
}
use abyte_tex.Rbac
use abyte_tex.Schema.{
  TenantStatus, User, UserStatus, RefreshToken, PasswordResetToken, Role, PermissionEffect,
}
use abyte_tex.Auth.Libraries.{Crypto, Jwt, TokenType, JwtAccessPayload}
use abyte_tex.Database.{AccessDb}

instance abbrev pub plain_crypto : Crypto
plain_crypto = record {
  hash_password = λ salt plain. plain;
  verify_password = λ hash plain. hash == plain;
  verify-hash = λ salt plain. ==_refl plain;
  random_bytes = λ n. n + 1;
  hash_token = λ n. n + 500;
}

abbrev pub sign_plain : JwtAccessPayload → ℕ
sign_plain p = elim p.token_type [ TokenType.access ↦ 2 * p.sub | TokenType.other ↦ 2 * p.sub + 1 ]

abbrev pub verify_plain : ℕ → Option JwtAccessPayload
verify_plain n = some (record {
  sub = n / 2;
  token_type = if 2 * (n / 2) == n then TokenType.access else TokenType.other;
})

pub verify-sign_plain : (p : JwtAccessPayload) → verify_plain (sign_plain p) ≡ some p
verify-sign_plain p = ground arith

instance abbrev pub plain_jwt : Jwt
plain_jwt = record { sign = sign_plain; verify = verify_plain; verify-sign = verify-sign_plain }

abbrev pub seller : User
seller = record {
  id = 8;
  tenant_id = some 1;
  email = 40;
  password_hash = 70;
  status = UserStatus.active;
  is_platform_admin = false;
  last_login_at = none;
  deleted_at = none;
}

abbrev pub session_token : RefreshToken
session_token = record {
  id = 90;
  user_id = 8;
  token_hash = 533;
  expires_at = 10000;
  revoked_at = none;
}

abbrev pub reset_link : PasswordResetToken
reset_link = record { id = 91; user_id = 8; token_hash = 544; expires_at = 10000; used_at = none }

abbrev pub sales_role : Role
sales_role = record {
  id = 60;
  tenant_id = some 1;
  code = Rbac.RoleCode.sales_manager;
  is_system = true;
}

abbrev pub sample_access : AccessDb
sample_access = record {
  tenants = record { id = 1; name = 1; slug = 1; status = TenantStatus.active } ∷ [];
  users = seller ∷ [];
  login_history = [];
  refresh_tokens = session_token ∷ [];
  password_reset_tokens = reset_link ∷ [];
  roles = sales_role ∷ [];
  permissions =
      record { role_id = 60; grants = (Rbac.Resource.sales_order, Rbac.Action.create) } ∷ [];
  user_roles = record { user_id = 8; role_id = 60 } ∷ [];
  permission_overrides =
      record {
        user_id = 8;
        permission = (Rbac.Resource.sales_order, Rbac.Action.delete);
        effect = PermissionEffect.deny;
      }
      ∷ [];
  factory_access = record { user_id = 8; factory_id = 4 } ∷ [];
}
