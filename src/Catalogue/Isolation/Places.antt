-- ===== src/Catalogue/Isolation/Places.antt =====
-- Each operation of the services of departments, shifts and warehouses leaves
-- the rows of the other tenants alone.
use abyte_tex.Base.{ℕ, ◌≡◌, refl, ap, ◌==◌, ◌&&◌, Option, some, truthy, ==_refl}
use abyte_tex.Http.{conflict, not_found, unique_violation}
use abyte_tex.Context.{TenantRequestContext, assert_factory_access}
use abyte_tex.Schema.{Warehouse, Department, Shift, Location, AuditAction, EntityType}
use abyte_tex.Maintenance.{or_keep}
use abyte_tex.Users.{is_some}
use abyte_tex.Catalogue.Sites
use abyte_tex.Catalogue.Isolation.{
  foreign, IsIsolated, IsIsolated-bind, or_throw-IsIsolated, check-IsIsolated, reject_if-IsIsolated,
  find_first-IsIsolated, raw-IsIsolated, create_logged, update_logged,
}
use abyte_tex.Database.Raw
use abyte_tex.Database.{Prisma, factories, warehouses, departments, shifts, locations}

module _ ⦃P : Prisma⦄ (t : ℕ) (ctx : TenantRequestContext)
    (own : truthy ctx.tenant_id ≡ some t) where
  location-IsIsolated : (row : ℕ → Location) → IsIsolated t (Raw.create locations row)
  location-IsIsolated row = record { holds = λ db. refl }

  pub assert_factory_exists-IsIsolated :
      (factory_id : ℕ) → IsIsolated t (Sites.assert_factory_exists ctx factory_id)
  unfolding Sites.assert_factory_exists
  assert_factory_exists-IsIsolated factory_id =
      IsIsolated-bind (check-IsIsolated (assert_factory_access ctx.factory_ids (some factory_id)))
        (λ _.
          IsIsolated-bind (find_first-IsIsolated t ctx own factories _)
            (λ r. or_throw-IsIsolated r not_found))

  pub create_department-IsIsolated :
      (factory_id : ℕ) (dto : Sites.CreateSiteDto)
      → IsIsolated t (Sites.create_department ctx factory_id dto)
  unfolding Sites.create_department
  create_department-IsIsolated factory_id dto =
      IsIsolated-bind (or_throw-IsIsolated (truthy ctx.tenant_id) conflict) (λ _.
        IsIsolated-bind (assert_factory_exists-IsIsolated factory_id) (λ _.
          IsIsolated-bind (find_first-IsIsolated t ctx own departments _) (λ r.
            IsIsolated-bind (reject_if-IsIsolated (is_some r) conflict) (λ _.
              create_logged t ctx own departments
                (λ l db e. ap (λ x. record (foreign t db) { departments = x }) e) AuditAction.create
                EntityType.department
                (λ t id. record {
                  id = id;
                  tenant_id = t;
                  factory_id = factory_id;
                  code = dto.code;
                  name = dto.name;
                })
                (λ (r : Department). r.id) (λ id. ==_refl t)))))

  pub get_department-IsIsolated :
      (factory_id id : ℕ) → IsIsolated t (Sites.get_department ctx factory_id id)
  unfolding Sites.get_department
  get_department-IsIsolated factory_id id =
      IsIsolated-bind (check-IsIsolated (assert_factory_access ctx.factory_ids (some factory_id)))
        (λ _.
          IsIsolated-bind (find_first-IsIsolated t ctx own departments _)
            (λ r. or_throw-IsIsolated r not_found))

  pub create_shift-IsIsolated :
      (factory_id : ℕ) (dto : Sites.CreateShiftDto)
      → IsIsolated t (Sites.create_shift ctx factory_id dto)
  unfolding Sites.create_shift
  create_shift-IsIsolated factory_id dto =
      IsIsolated-bind (or_throw-IsIsolated (truthy ctx.tenant_id) conflict) (λ _.
        IsIsolated-bind (assert_factory_exists-IsIsolated factory_id) (λ _.
          IsIsolated-bind (find_first-IsIsolated t ctx own shifts _) (λ r.
            IsIsolated-bind (reject_if-IsIsolated (is_some r) conflict) (λ _.
              create_logged t ctx own shifts
                (λ l db e. ap (λ x. record (foreign t db) { shifts = x }) e) AuditAction.create
                EntityType.shift
                (λ t id. record {
                  id = id;
                  tenant_id = t;
                  factory_id = factory_id;
                  name = dto.name;
                  start_time = dto.start_time;
                })
                (λ (r : Shift). r.id) (λ id. ==_refl t)))))

  pub get_shift-IsIsolated : (factory_id id : ℕ) → IsIsolated t (Sites.get_shift ctx factory_id id)
  unfolding Sites.get_shift
  get_shift-IsIsolated factory_id id =
      IsIsolated-bind (check-IsIsolated (assert_factory_access ctx.factory_ids (some factory_id)))
        (λ _.
          IsIsolated-bind (find_first-IsIsolated t ctx own shifts _)
            (λ r. or_throw-IsIsolated r not_found))

  pub create_warehouse-IsIsolated :
      (factory_id : ℕ) (dto : Sites.CreateSiteDto)
      → IsIsolated t (Sites.create_warehouse ctx factory_id dto)
  unfolding Sites.create_warehouse
  create_warehouse-IsIsolated factory_id dto =
      IsIsolated-bind (or_throw-IsIsolated (truthy ctx.tenant_id) conflict) (λ _.
        IsIsolated-bind (assert_factory_exists-IsIsolated factory_id) (λ _.
          IsIsolated-bind (find_first-IsIsolated t ctx own warehouses _) (λ r.
            IsIsolated-bind (reject_if-IsIsolated (is_some r) conflict) (λ _.
              create_logged t ctx own warehouses
                (λ l db e. ap (λ x. record (foreign t db) { warehouses = x }) e) AuditAction.create
                EntityType.warehouse
                (λ t id. record {
                  id = id;
                  tenant_id = t;
                  factory_id = factory_id;
                  code = dto.code;
                  name = dto.name;
                })
                (λ (r : Warehouse). r.id) (λ id. ==_refl t)))))

  pub get_warehouse-IsIsolated :
      (factory_id id : ℕ) → IsIsolated t (Sites.get_warehouse ctx factory_id id)
  unfolding Sites.get_warehouse
  get_warehouse-IsIsolated factory_id id =
      IsIsolated-bind (check-IsIsolated (assert_factory_access ctx.factory_ids (some factory_id)))
        (λ _.
          IsIsolated-bind (find_first-IsIsolated t ctx own warehouses _)
            (λ r. or_throw-IsIsolated r not_found))

  pub update_department-IsIsolated :
      (factory_id id : ℕ) (name : Option ℕ)
      → IsIsolated t (Sites.update_department ctx factory_id id name)
  unfolding Sites.update_department
  update_department-IsIsolated factory_id id name =
      IsIsolated-bind (get_department-IsIsolated factory_id id) (λ _.
        update_logged t ctx own departments
          (λ l db e. ap (λ x. record (foreign t db) { departments = x }) e) AuditAction.update
          EntityType.department (λ d. d.id == id) (λ d. record d { name = or_keep name d.name }) id
          (λ r. refl))

  pub update_shift-IsIsolated :
      (factory_id id : ℕ) (name start_time : Option ℕ)
      → IsIsolated t (Sites.update_shift ctx factory_id id name start_time)
  unfolding Sites.update_shift
  update_shift-IsIsolated factory_id id name start_time =
      IsIsolated-bind (get_shift-IsIsolated factory_id id) (λ _.
        IsIsolated-bind (raw-IsIsolated t ctx own shifts (Sites.takes_name factory_id id name))
          (λ r. IsIsolated-bind (reject_if-IsIsolated (is_some r) unique_violation) (λ _.
            update_logged t ctx own shifts
              (λ l db e. ap (λ x. record (foreign t db) { shifts = x }) e) AuditAction.update
              EntityType.shift (λ s. s.id == id)
              (λ s. record s {
                name = or_keep name s.name;
                start_time = or_keep start_time s.start_time;
              })
              id (λ r. refl))))

  pub update_warehouse-IsIsolated :
      (factory_id id : ℕ) (name : Option ℕ)
      → IsIsolated t (Sites.update_warehouse ctx factory_id id name)
  unfolding Sites.update_warehouse
  update_warehouse-IsIsolated factory_id id name =
      IsIsolated-bind (get_warehouse-IsIsolated factory_id id) (λ _.
        update_logged t ctx own warehouses
          (λ l db e. ap (λ x. record (foreign t db) { warehouses = x }) e) AuditAction.update
          EntityType.warehouse (λ w. w.id == id) (λ w. record w { name = or_keep name w.name }) id
          (λ r. refl))

  pub add_location-IsIsolated :
      (factory_id id code : ℕ) → IsIsolated t (Sites.add_location ctx factory_id id code)
  unfolding Sites.add_location
  add_location-IsIsolated factory_id id code =
      IsIsolated-bind (get_warehouse-IsIsolated factory_id id) (λ _.
        IsIsolated-bind
          (raw-IsIsolated t ctx own locations (λ l. (l.warehouse_id == id) && (l.code == code)))
          (λ r. IsIsolated-bind (reject_if-IsIsolated (is_some r) conflict) (λ _.
            location-IsIsolated (λ id'. record { id = id'; warehouse_id = id; code = code }))))
