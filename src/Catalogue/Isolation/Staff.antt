-- ===== src/Catalogue/Isolation/Staff.antt =====
-- Each operation of the services of machines and employees leaves
-- the rows of the other tenants alone.
use abyte_tex.Base.{ℕ, ◌≡◌, refl, ap, ◌==◌, some, truthy, ==_refl}
use abyte_tex.Http.{conflict, not_found}
use abyte_tex.Context.{TenantRequestContext, assert_factory_access}
use abyte_tex.Schema.{Machine, MachineStatus, Employee, AuditAction, EntityType}
use abyte_tex.Maintenance.{or_keep, or_keep_null}
use abyte_tex.Users.{is_some}
use abyte_tex.Catalogue.Staffing
use abyte_tex.Catalogue.Isolation.{
  foreign, IsIsolated, IsIsolated-bind, pure-IsIsolated, or_throw-IsIsolated, check-IsIsolated,
  reject_if-IsIsolated, find_first-IsIsolated, create_logged, update_logged,
}
use abyte_tex.Database.{Prisma, machines, employees}
use abyte_tex.Catalogue.Isolation.Places.{assert_factory_exists-IsIsolated}

module _ ⦃P : Prisma⦄ (t : ℕ) (ctx : TenantRequestContext)
    (own : truthy ctx.tenant_id ≡ some t) where
  pub create_machine-IsIsolated :
      (factory_id : ℕ) (dto : Staffing.CreateMachineDto)
      → IsIsolated t (Staffing.create_machine ctx factory_id dto)
  unfolding Staffing.create_machine
  create_machine-IsIsolated factory_id dto =
      IsIsolated-bind (or_throw-IsIsolated (truthy ctx.tenant_id) conflict) (λ _.
        IsIsolated-bind (assert_factory_exists-IsIsolated t ctx own factory_id) (λ _.
          IsIsolated-bind (find_first-IsIsolated t ctx own machines _) (λ r.
            IsIsolated-bind (reject_if-IsIsolated (is_some r) conflict) (λ _.
              create_logged t ctx own machines
                (λ l db e. ap (λ x. record (foreign t db) { machines = x }) e) AuditAction.create
                EntityType.machine
                (λ t id. record {
                  id = id;
                  tenant_id = t;
                  factory_id = factory_id;
                  machine_code = dto.machine_code;
                  name = dto.name;
                  department_id = dto.department_id;
                  status = MachineStatus.idle;
                })
                (λ (r : Machine). r.id) (λ id. ==_refl t)))))

  pub get_machine-IsIsolated : (id : ℕ) → IsIsolated t (Staffing.get_machine ctx id)
  unfolding Staffing.get_machine
  get_machine-IsIsolated id = IsIsolated-bind (find_first-IsIsolated t ctx own machines _) (λ r.
      IsIsolated-bind (or_throw-IsIsolated r not_found) (λ m.
        IsIsolated-bind
          (check-IsIsolated (assert_factory_access ctx.factory_ids (some m.factory_id)))
          (λ _. pure-IsIsolated m)))

  pub update_machine-IsIsolated :
      (id : ℕ) (dto : Staffing.UpdateMachineDto) → IsIsolated t (Staffing.update_machine ctx id dto)
  unfolding Staffing.update_machine
  update_machine-IsIsolated id dto = IsIsolated-bind (get_machine-IsIsolated id) (λ _.
      update_logged t ctx own machines
        (λ l db e. ap (λ x. record (foreign t db) { machines = x }) e) AuditAction.update
        EntityType.machine (λ m. m.id == id)
        (λ m. record m {
          name = or_keep dto.name m.name;
          department_id = or_keep_null dto.department_id m.department_id;
          status = or_keep dto.status m.status;
        })
        id (λ r. refl))

  pub create_employee-IsIsolated :
      (factory_id : ℕ) (dto : Staffing.CreateEmployeeDto)
      → IsIsolated t (Staffing.create_employee ctx factory_id dto)
  unfolding Staffing.create_employee
  create_employee-IsIsolated factory_id dto =
      IsIsolated-bind (or_throw-IsIsolated (truthy ctx.tenant_id) conflict) (λ _.
        IsIsolated-bind (assert_factory_exists-IsIsolated t ctx own factory_id) (λ _.
          IsIsolated-bind (find_first-IsIsolated t ctx own employees _) (λ r.
            IsIsolated-bind (reject_if-IsIsolated (is_some r) conflict) (λ _.
              create_logged t ctx own employees
                (λ l db e. ap (λ x. record (foreign t db) { employees = x }) e) AuditAction.create
                EntityType.employee
                (λ t id. record {
                  id = id;
                  tenant_id = t;
                  factory_id = factory_id;
                  employee_code = dto.employee_code;
                  last_name = dto.last_name;
                  department_id = dto.department_id;
                  shift_id = dto.shift_id;
                })
                (λ (r : Employee). r.id) (λ id. ==_refl t)))))

  pub get_employee-IsIsolated : (id : ℕ) → IsIsolated t (Staffing.get_employee ctx id)
  unfolding Staffing.get_employee
  get_employee-IsIsolated id = IsIsolated-bind (find_first-IsIsolated t ctx own employees _) (λ r.
      IsIsolated-bind (or_throw-IsIsolated r not_found) (λ m.
        IsIsolated-bind
          (check-IsIsolated (assert_factory_access ctx.factory_ids (some m.factory_id)))
          (λ _. pure-IsIsolated m)))

  pub update_employee-IsIsolated :
      (id : ℕ) (dto : Staffing.UpdateEmployeeDto)
      → IsIsolated t (Staffing.update_employee ctx id dto)
  unfolding Staffing.update_employee
  update_employee-IsIsolated id dto = IsIsolated-bind (get_employee-IsIsolated id) (λ _.
      update_logged t ctx own employees
        (λ l db e. ap (λ x. record (foreign t db) { employees = x }) e) AuditAction.update
        EntityType.employee (λ e. e.id == id)
        (λ e. record e {
          last_name = or_keep dto.last_name e.last_name;
          department_id = or_keep_null dto.department_id e.department_id;
          shift_id = or_keep_null dto.shift_id e.shift_id;
        })
        id (λ r. refl))
