-- ===== src/Database/AccessTables.antt =====
-- The tables of users, credentials, roles and permissions (prisma/schema.prisma).
use abyte_tex.Base.{true, false, none, some, ◌==◌}
use abyte_tex.Schema.{
  Tenant, User, LoginHistory, RefreshToken, PasswordResetToken, Role, RolePermission, UserRole,
  UserPermissionOverride, UserFactoryAccess,
}
use abyte_tex.Database.Tables.{Table}

abbrev pub tenants : Table Tenant
tenants = record {
  rows = λ db. db.access.tenants;
  put = λ l db. record db { access = record db.access { tenants = l } };
  owned = λ t r. true;
}

abbrev pub users : Table User
users = record {
  rows = λ db. db.access.users;
  put = λ l db. record db { access = record db.access { users = l } };
  owned = λ t r. elim r.tenant_id [ none ↦ false | some o ↦ o == t ];
}

abbrev pub login_history : Table LoginHistory
login_history = record {
  rows = λ db. db.access.login_history;
  put = λ l db. record db { access = record db.access { login_history = l } };
  owned = λ t r. true;
}

abbrev pub refresh_tokens : Table RefreshToken
refresh_tokens = record {
  rows = λ db. db.access.refresh_tokens;
  put = λ l db. record db { access = record db.access { refresh_tokens = l } };
  owned = λ t r. true;
}

abbrev pub password_reset_tokens : Table PasswordResetToken
password_reset_tokens = record {
  rows = λ db. db.access.password_reset_tokens;
  put = λ l db. record db { access = record db.access { password_reset_tokens = l } };
  owned = λ t r. true;
}

abbrev pub roles : Table Role
roles = record {
  rows = λ db. db.access.roles;
  put = λ l db. record db { access = record db.access { roles = l } };
  owned = λ t r. elim r.tenant_id [ none ↦ false | some o ↦ o == t ];
}

abbrev pub permissions : Table RolePermission
permissions = record {
  rows = λ db. db.access.permissions;
  put = λ l db. record db { access = record db.access { permissions = l } };
  owned = λ t r. true;
}

abbrev pub user_roles : Table UserRole
user_roles = record {
  rows = λ db. db.access.user_roles;
  put = λ l db. record db { access = record db.access { user_roles = l } };
  owned = λ t r. true;
}

abbrev pub permission_overrides : Table UserPermissionOverride
permission_overrides = record {
  rows = λ db. db.access.permission_overrides;
  put = λ l db. record db { access = record db.access { permission_overrides = l } };
  owned = λ t r. true;
}

abbrev pub factory_access : Table UserFactoryAccess
factory_access = record {
  rows = λ db. db.access.factory_access;
  put = λ l db. record db { access = record db.access { factory_access = l } };
  owned = λ t r. true;
}
