-- ===== src/Attendance.antt =====
-- Attendance (apps/api/src/attendance/attendance.service.ts). The lists of the queries are left out.
pub mod Marking
use abyte_tex.Base.{ℕ, Bool, Option, none, some, ◌==◌, ◌&&◌, if◌then◌else◌, truthy}
use abyte_tex.Http.{ok, conflict, not_found}
use abyte_tex.Context.{TenantRequestContext, assert_factory_access}
use abyte_tex.Schema
use abyte_tex.Schema.{Employee, Attendance, AttendanceStatus}
use abyte_tex.Database.{
  Prisma, Db, Action, ◌>>=◌, ◌>>◌, pure, throw, check, or_throw, reject_if, log, employees,
  attendances, find_first, create, update,
}
use abyte_tex.Maintenance.{or_keep, or_keep_null}

pub record MarkAttendanceDto : Type 0 where
  pub employee_id : ℕ
  pub date : ℕ
  pub check_in : Option ℕ
  pub check_out : Option ℕ
  pub status : AttendanceStatus
  pub overtime_minutes : Option ℕ

pub record UpdateAttendanceDto : Type 0 where
  pub check_in : Option ℕ
  pub check_out : Option ℕ
  pub status : Option AttendanceStatus
  pub overtime_minutes : Option ℕ

abbrev pub is_some : {A : Type 0} → Option A → Bool
is_some none = Bool.false
is_some (some a) = Bool.true

abbrev pub or_zero : Option ℕ → ℕ
or_zero none = 0
or_zero (some n) = n

module _ ⦃P : Prisma⦄ (ctx : TenantRequestContext) where
  unfoldable pub insert_attendance : MarkAttendanceDto → Employee → Action Attendance
  insert_attendance dto employee = do
    attendance ← create attendances ctx (λ t id. record {
      id = id;
      tenant_id = t;
      factory_id = employee.factory_id;
      employee_id = dto.employee_id;
      date = dto.date;
      check_in = dto.check_in;
      check_out = dto.check_out;
      status = dto.status;
      overtime_minutes = or_zero dto.overtime_minutes;
    })
    log ctx Schema.AuditAction.create Schema.EntityType.attendance attendance.id
    pure attendance

  unfoldable pub mark : MarkAttendanceDto → Action Attendance
  mark dto = do
    or_throw (truthy ctx.tenant_id) conflict
    found ← find_first employees ctx (λ e. e.id == dto.employee_id)
    employee ← or_throw found not_found
    check (assert_factory_access ctx.factory_ids (some employee.factory_id))
    existing ←
        find_first attendances ctx (λ a. (a.employee_id == dto.employee_id) && (a.date == dto.date))
    reject_if (is_some existing) conflict
    insert_attendance dto employee

  unfoldable pub get_by_id : ℕ → Action Attendance
  get_by_id id = do
    found ← find_first attendances ctx (λ a. a.id == id)
    attendance ← or_throw found not_found
    check (assert_factory_access ctx.factory_ids (some attendance.factory_id))
    pure attendance

  unfoldable pub update_attendance : ℕ → UpdateAttendanceDto → Action Attendance
  update_attendance id dto = do
    existing ← get_by_id id
    updated ←
        update attendances ctx (λ a. a.id == id)
          (λ a. record a {
            check_in = or_keep_null dto.check_in a.check_in;
            check_out = or_keep_null dto.check_out a.check_out;
            status = or_keep dto.status a.status;
            overtime_minutes = or_keep dto.overtime_minutes a.overtime_minutes;
          })
    log ctx Schema.AuditAction.update Schema.EntityType.attendance id
    pure updated
