-- ===== src/Roles.antt =====
-- The roles of a tenant: their permissions and how an administrator changes them
-- (apps/api/src/roles/roles.service.ts), the roles that a new tenant gets
-- (apps/api/src/roles/role-seed.util.ts), and the backfill when the service boots
-- (apps/api/src/roles/permission-backfill.service.ts). The names of the roles are left out.
pub mod Backfill
use abyte_tex.Base.{
  ℕ, Bool, true, Option, some, List, [], ◌∷◌, ◌==◌, ◌&&◌, if◌then◌else◌, any, map, flat_map,
}
use abyte_tex.Http.{Result, ok, not_found, unique_violation}
use abyte_tex.Context.{TenantRequestContext}
use abyte_tex.Rbac.{
  RoleCode, Permission, same_role, same_permission, tenant_role_codes, permission_rows,
}
use abyte_tex.Schema
use abyte_tex.Schema.{Role, RolePermission}
use abyte_tex.Database.{
  Prisma, Db, Action, ◌>>=◌, ◌>>◌, pure, throw, or_throw, reject_if, for_each, transaction, log,
  roles, permissions, find_first,
}
use abyte_tex.Database.Raw

-- The unique key of a row of `permissions`.
abbrev pub same_row : RolePermission → RolePermission → Bool
same_row a b = (a.role_id == b.role_id) && same_permission a.grants b.grants

abbrev pub rows_for : ℕ → List Permission → List RolePermission
rows_for role_id = map (λ p. record { role_id = role_id; grants = p })

module _ ⦃P : Prisma⦄ where
  abbrev pub add_row : RolePermission → Db → Db
  add_row row db = record db {
    access = record db.access { permissions = P.create row db.access.permissions };
  }

  -- `permission.createMany`, which throws on a duplicate …
  unfoldable pub create_many : List RolePermission → Action (Unit {0})
  create_many rows = transaction (
      for_each rows (λ row db.
        if any (λ r. same_row r row) db.access.permissions
        then (Result.err unique_violation, db)
        else (ok tt, add_row row db)))

  -- … or with `skipDuplicates` leaves it.
  unfoldable pub create_many_skipping : List RolePermission → Action (Unit {0})
  create_many_skipping rows = for_each rows (λ row db.
      (ok tt, if any (λ r. same_row r row) db.access.permissions then db else add_row row db))

  unfoldable pub get_role_by_id : TenantRequestContext → ℕ → Action Role
  get_role_by_id ctx id = do
    found ← find_first roles ctx (λ r. r.id == id)
    or_throw found not_found

  unfoldable pub replace_permissions : ℕ → List Permission → Action (Unit {0})
  replace_permissions id input =
      transaction
        (do Raw.delete_many permissions (λ p. p.role_id == id); create_many (rows_for id input))

  unfoldable pub set_role_permissions : TenantRequestContext → ℕ → List Permission → Action Role
  set_role_permissions ctx id input = do
    role ← get_role_by_id ctx id
    reject_if (same_role role.code RoleCode.company_owner) not_found
    replace_permissions id input
    log ctx Schema.AuditAction.permission_change Schema.EntityType.role id
    get_role_by_id ctx id

  -- `seedTenantRoles`, which returns the identifier of each role.
  unfoldable pub seed_roles : ℕ → List RoleCode → Action (List (RoleCode × ℕ))
  seed_roles tenant_id [] = pure []
  seed_roles tenant_id (code ∷ codes) = do
    role ←
        Raw.create roles
          (λ id. record { id = id; tenant_id = some tenant_id; code = code; is_system = true })
    create_many (rows_for role.id (permission_rows code))
    rest ← seed_roles tenant_id codes
    pure ((code, role.id) ∷ rest)

  unfoldable pub seed_tenant_roles : ℕ → Action (List (RoleCode × ℕ))
  seed_tenant_roles tenant_id = seed_roles tenant_id tenant_role_codes

  -- The roles that the backfill reads, and the rows that it makes of them.
  abbrev pub is_backfilled : Role → Bool
  is_backfilled r = r.is_system && any (λ c. same_role c r.code) tenant_role_codes

  unfoldable pub backfill_rows : List Role → List RolePermission
  backfill_rows = flat_map (λ r. rows_for r.id (permission_rows r.code))

  -- What the backfill does with the rows that it made.
  unfoldable pub store_rows : List RolePermission → Action (Unit {0})
  store_rows [] = pure tt
  store_rows (row ∷ rows) = create_many_skipping (row ∷ rows)

  unfoldable pub on_module_init : Action (Unit {0})
  on_module_init = do found ← Raw.find_many roles is_backfilled; store_rows (backfill_rows found)
