-- ===== src/Catalogue/Sites.antt =====
-- What stands in a factory: departments, shifts and warehouses with their locations
-- (apps/api/src/departments, shifts and warehouses). Of what a form edits, the name, and of a shift
-- its start.
use abyte_tex.Base.{ℕ, Bool, false, Option, none, some, ◌==◌, ◌&&◌, not, truthy}
use abyte_tex.Http.{conflict, not_found, unique_violation}
use abyte_tex.Context.{TenantRequestContext, assert_factory_access}
use abyte_tex.Schema
use abyte_tex.Schema.{Factory, Department, Shift, Warehouse, Location}
use abyte_tex.Database.{
  Prisma, Action, ◌>>=◌, ◌>>◌, pure, check, or_throw, reject_if, log, factories, departments,
  shifts, warehouses, locations, find_first, create, update,
}
use abyte_tex.Database.Raw
use abyte_tex.Maintenance.{or_keep}
use abyte_tex.Users.{is_some}

pub record CreateSiteDto : Type 0 where
  pub code : ℕ
  pub name : ℕ

pub record CreateShiftDto : Type 0 where
  pub name : ℕ
  pub start_time : ℕ

-- `@@unique([factoryId, name])`, for another shift than the one with the identifier.
abbrev pub takes_name : ℕ → ℕ → Option ℕ → Shift → Bool
takes_name factory_id id name s = elim name [
  | none ↦ false
  | some n ↦ (s.factory_id == factory_id) && (s.name == n) && not (s.id == id)
]

module _ ⦃P : Prisma⦄ (ctx : TenantRequestContext) where
  -- `assertFactoryExists`, of each of the three services.
  unfoldable pub assert_factory_exists : ℕ → Action Factory
  assert_factory_exists factory_id = do
    check (assert_factory_access ctx.factory_ids (some factory_id))
    found ← find_first factories ctx (λ f. f.id == factory_id)
    or_throw found not_found

  unfoldable pub create_department : ℕ → CreateSiteDto → Action Department
  create_department factory_id dto = do
    or_throw (truthy ctx.tenant_id) conflict
    assert_factory_exists factory_id
    existing ←
        find_first departments ctx (λ d. (d.factory_id == factory_id) && (d.code == dto.code))
    reject_if (is_some existing) conflict
    department ← create departments ctx (λ t id. record {
      id = id;
      tenant_id = t;
      factory_id = factory_id;
      code = dto.code;
      name = dto.name;
    })
    log ctx Schema.AuditAction.create Schema.EntityType.department department.id
    pure department

  unfoldable pub get_department : ℕ → ℕ → Action Department
  get_department factory_id id = do
    check (assert_factory_access ctx.factory_ids (some factory_id))
    found ← find_first departments ctx (λ d. (d.id == id) && (d.factory_id == factory_id))
    or_throw found not_found

  unfoldable pub update_department : ℕ → ℕ → Option ℕ → Action Department
  update_department factory_id id name = do
    get_department factory_id id
    updated ←
        update departments ctx (λ d. d.id == id) (λ d. record d { name = or_keep name d.name })
    log ctx Schema.AuditAction.update Schema.EntityType.department id
    pure updated

  unfoldable pub create_shift : ℕ → CreateShiftDto → Action Shift
  create_shift factory_id dto = do
    or_throw (truthy ctx.tenant_id) conflict
    assert_factory_exists factory_id
    existing ← find_first shifts ctx (λ s. (s.factory_id == factory_id) && (s.name == dto.name))
    reject_if (is_some existing) conflict
    shift ← create shifts ctx (λ t id. record {
      id = id;
      tenant_id = t;
      factory_id = factory_id;
      name = dto.name;
      start_time = dto.start_time;
    })
    log ctx Schema.AuditAction.create Schema.EntityType.shift shift.id
    pure shift

  unfoldable pub get_shift : ℕ → ℕ → Action Shift
  get_shift factory_id id = do
    check (assert_factory_access ctx.factory_ids (some factory_id))
    found ← find_first shifts ctx (λ s. (s.id == id) && (s.factory_id == factory_id))
    or_throw found not_found

  unfoldable pub update_shift : ℕ → ℕ → Option ℕ → Option ℕ → Action Shift
  update_shift factory_id id name start_time = do
    get_shift factory_id id
    taken ← Raw.find_first shifts (takes_name factory_id id name)
    reject_if (is_some taken) unique_violation
    updated ←
        update shifts ctx (λ s. s.id == id)
          (λ s. record s {
            name = or_keep name s.name;
            start_time = or_keep start_time s.start_time;
          })
    log ctx Schema.AuditAction.update Schema.EntityType.shift id
    pure updated

  unfoldable pub create_warehouse : ℕ → CreateSiteDto → Action Warehouse
  create_warehouse factory_id dto = do
    or_throw (truthy ctx.tenant_id) conflict
    assert_factory_exists factory_id
    existing ← find_first warehouses ctx (λ w. (w.factory_id == factory_id) && (w.code == dto.code))
    reject_if (is_some existing) conflict
    warehouse ← create warehouses ctx (λ t id. record {
      id = id;
      tenant_id = t;
      factory_id = factory_id;
      code = dto.code;
      name = dto.name;
    })
    log ctx Schema.AuditAction.create Schema.EntityType.warehouse warehouse.id
    pure warehouse

  unfoldable pub get_warehouse : ℕ → ℕ → Action Warehouse
  get_warehouse factory_id id = do
    check (assert_factory_access ctx.factory_ids (some factory_id))
    found ← find_first warehouses ctx (λ w. (w.id == id) && (w.factory_id == factory_id))
    or_throw found not_found

  unfoldable pub update_warehouse : ℕ → ℕ → Option ℕ → Action Warehouse
  update_warehouse factory_id id name = do
    get_warehouse factory_id id
    updated ← update warehouses ctx (λ w. w.id == id) (λ w. record w { name = or_keep name w.name })
    log ctx Schema.AuditAction.update Schema.EntityType.warehouse id
    pure updated

  -- Locations have no tenant, and are reached by the unscoped client.
  unfoldable pub add_location : ℕ → ℕ → ℕ → Action Location
  add_location factory_id warehouse_id code = do
    get_warehouse factory_id warehouse_id
    existing ← Raw.find_first locations (λ l. (l.warehouse_id == warehouse_id) && (l.code == code))
    reject_if (is_some existing) conflict
    Raw.create locations (λ id. record { id = id; warehouse_id = warehouse_id; code = code })
