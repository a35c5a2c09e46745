-- ===== src/Catalogue/Staffing.antt =====
-- Machines and employees (apps/api/src/machines/machines.service.ts and
-- apps/api/src/employees/employees.service.ts). Of what a form edits, the name, the department, the
-- status of a machine and the shift of an employee.
use abyte_tex.Base.{ℕ, Option, some, ◌==◌, truthy}
use abyte_tex.Http.{conflict, not_found}
use abyte_tex.Context.{TenantRequestContext, assert_factory_access}
use abyte_tex.Schema
use abyte_tex.Schema.{Machine, MachineStatus, Employee}
use abyte_tex.Database.{
  Prisma, Action, ◌>>=◌, ◌>>◌, pure, check, or_throw, reject_if, log, machines, employees,
  find_first, create, update,
}
use abyte_tex.Maintenance.{or_keep, or_keep_null}
use abyte_tex.Users.{is_some}
use abyte_tex.Catalogue.Sites.{assert_factory_exists}

pub record CreateMachineDto : Type 0 where
  pub machine_code : ℕ
  pub name : ℕ
  pub department_id : Option ℕ

pub record UpdateMachineDto : Type 0 where
  pub name : Option ℕ
  pub department_id : Option ℕ
  pub status : Option MachineStatus

pub record CreateEmployeeDto : Type 0 where
  pub employee_code : ℕ
  pub last_name : ℕ
  pub department_id : Option ℕ
  pub shift_id : Option ℕ

pub record UpdateEmployeeDto : Type 0 where
  pub last_name : Option ℕ
  pub department_id : Option ℕ
  pub shift_id : Option ℕ

module _ ⦃P : Prisma⦄ (ctx : TenantRequestContext) where
  -- A new machine is IDLE, the default of the column.
  unfoldable pub create_machine : ℕ → CreateMachineDto → Action Machine
  create_machine factory_id dto = do
    or_throw (truthy ctx.tenant_id) conflict
    assert_factory_exists ctx factory_id
    existing ← find_first machines ctx (λ m. m.machine_code == dto.machine_code)
    reject_if (is_some existing) conflict
    machine ← create machines ctx (λ t id. record {
      id = id;
      tenant_id = t;
      factory_id = factory_id;
      machine_code = dto.machine_code;
      name = dto.name;
      department_id = dto.department_id;
      status = MachineStatus.idle;
    })
    log ctx Schema.AuditAction.create Schema.EntityType.machine machine.id
    pure machine

  unfoldable pub get_machine : ℕ → Action Machine
  get_machine id = do
    found ← find_first machines ctx (λ m. m.id == id)
    machine ← or_throw found not_found
    check (assert_factory_access ctx.factory_ids (some machine.factory_id))
    pure machine

  unfoldable pub update_machine : ℕ → UpdateMachineDto → Action Machine
  update_machine id dto = do
    get_machine id
    updated ←
        update machines ctx (λ m. m.id == id)
          (λ m. record m {
            name = or_keep dto.name m.name;
            department_id = or_keep_null dto.department_id m.department_id;
            status = or_keep dto.status m.status;
          })
    log ctx Schema.AuditAction.update Schema.EntityType.machine id
    pure updated

  unfoldable pub create_employee : ℕ → CreateEmployeeDto → Action Employee
  create_employee factory_id dto = do
    or_throw (truthy ctx.tenant_id) conflict
    assert_factory_exists ctx factory_id
    existing ← find_first employees ctx (λ e. e.employee_code == dto.employee_code)
    reject_if (is_some existing) conflict
    employee ← create employees ctx (λ t id. record {
      id = id;
      tenant_id = t;
      factory_id = factory_id;
      employee_code = dto.employee_code;
      last_name = dto.last_name;
      department_id = dto.department_id;
      shift_id = dto.shift_id;
    })
    log ctx Schema.AuditAction.create Schema.EntityType.employee employee.id
    pure employee

  unfoldable pub get_employee : ℕ → Action Employee
  get_employee id = do
    found ← find_first employees ctx (λ e. e.id == id)
    employee ← or_throw found not_found
    check (assert_factory_access ctx.factory_ids (some employee.factory_id))
    pure employee

  unfoldable pub update_employee : ℕ → UpdateEmployeeDto → Action Employee
  update_employee id dto = do
    get_employee id
    updated ←
        update employees ctx (λ e. e.id == id)
          (λ e. record e {
            last_name = or_keep dto.last_name e.last_name;
            department_id = or_keep_null dto.department_id e.department_id;
            shift_id = or_keep_null dto.shift_id e.shift_id;
          })
    log ctx Schema.AuditAction.update Schema.EntityType.employee id
    pure updated
