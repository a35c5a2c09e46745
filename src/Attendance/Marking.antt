-- ===== src/Attendance/Marking.antt =====
-- One record of attendance for an employee and a day.
use abyte_tex.Base.{ℕ, ◌+◌, ◌≡◌, Bool, Option, none, some, ◌∷◌, ◌==◌, ◌&&◌, truthy, arith, ==_refl}
use abyte_tex.Http.{ok, err, conflict}
use abyte_tex.Context.{TenantRequestContext, assert_factory_access}
use abyte_tex.Schema.{Employee, Attendance, AttendanceStatus, AuditAction, EntityType}
use abyte_tex.Attendance.{MarkAttendanceDto, or_zero, insert_attendance, mark}
use abyte_tex.Database.{Prisma, Db}
use abyte_tex.Database.Creation.{none-any, find_first-create}

module _ ⦃P : Prisma⦄ (ctx : TenantRequestContext) (t : ℕ) (employee : Employee) (db : Db) where
  abbrev pub marked : MarkAttendanceDto → Attendance
  marked dto = record {
    id = P.cuid db.generated;
    tenant_id = t;
    factory_id = employee.factory_id;
    employee_id = dto.employee_id;
    date = dto.date;
    check_in = dto.check_in;
    check_out = dto.check_out;
    status = dto.status;
    overtime_minutes = or_zero dto.overtime_minutes;
  }

  abbrev pub marked_db : MarkAttendanceDto → Db
  marked_db dto = record db {
    plant = record db.plant { attendances = P.create (marked dto) db.plant.attendances };
    audit_log =
        record {
          tenant_id = ctx.tenant_id;
          user_id = ctx.user_id;
          action = AuditAction.create;
          entity_type = EntityType.attendance;
          entity_id = P.cuid db.generated;
        }
        ∷ db.audit_log;
    generated = db.generated + 1;
  }

  abbrev pub of_day : MarkAttendanceDto → Attendance → Bool
  of_day dto a = (a.tenant_id == t) && ((a.employee_id == dto.employee_id) && (a.date == dto.date))

  module _ (e : truthy ctx.tenant_id ≡ some t)
      (access : assert_factory_access ctx.factory_ids (some employee.factory_id) ≡ ok tt) where
    mark_first :
        (dto : MarkAttendanceDto)
        → P.find_first (λ x. (x.tenant_id == t) && (x.id == dto.employee_id)) db.plant.employees
          ≡ some employee
        → P.find_first (of_day dto) db.plant.attendances ≡ none
        → mark ctx dto db ≡ (ok (marked dto), marked_db dto)
    unfolding mark insert_attendance
    mark_first dto found new = ground arith

-- The second record of a day is refused.
mark_second :
    ⦃P : Prisma⦄ (ctx : TenantRequestContext) (t : ℕ) (dto : MarkAttendanceDto)
    (employee : Employee) (db : Db) (old : Attendance)
    → truthy ctx.tenant_id ≡ some t
    → assert_factory_access ctx.factory_ids (some employee.factory_id) ≡ ok tt
    → P.find_first (λ x. (x.tenant_id == t) && (x.id == dto.employee_id)) db.plant.employees
      ≡ some employee
    → P.find_first
        (λ a. (a.tenant_id == t) && ((a.employee_id == dto.employee_id) && (a.date == dto.date)))
        db.plant.attendances
      ≡ some old
    → mark ctx dto db ≡ (err conflict, db)
unfolding mark
mark_second ctx t dto employee db old e access found there = ground arith

-- The first record of a tenant's employee for a day, by a user with access to the factory of the
-- employee, is stored with one audit entry, and a second one for the same employee and day, whatever
-- else it says, is a 409 that changes nothing.
pub mark_twice :
    ⦃P : Prisma⦄ (ctx : TenantRequestContext) (t : ℕ) (dto : MarkAttendanceDto)
    (check_in check_out overtime_minutes : Option ℕ) (status : AttendanceStatus)
    (employee : Employee) (db : Db)
    → truthy ctx.tenant_id ≡ some t
    → assert_factory_access ctx.factory_ids (some employee.factory_id) ≡ ok tt
    → P.find_first (λ x. (x.tenant_id == t) && (x.id == dto.employee_id)) db.plant.employees
      ≡ some employee
    → P.find_first (of_day ctx t employee db dto) db.plant.attendances ≡ none
    → (mark ctx dto db ≡ (ok (marked ctx t employee db dto), marked_db ctx t employee db dto))
      × (mark ctx
            (record dto {
              check_in = check_in;
              check_out = check_out;
              status = status;
              overtime_minutes = overtime_minutes;
            })
            (marked_db ctx t employee db dto)
          ≡ (err conflict, marked_db ctx t employee db dto))
mark_twice ctx t dto check_in check_out overtime_minutes status employee db e access found new = (
  mark_first ctx t employee db e access dto found new,
  mark_second ctx t _ employee (marked_db ctx t employee db dto) (marked ctx t employee db dto) e
      access found
      (find_first-create (of_day ctx t employee db dto) (marked ctx t employee db dto)
        db.plant.attendances (none-any (of_day ctx t employee db dto) db.plant.attendances new)
        (ground (arith, ==_refl t))),
)
