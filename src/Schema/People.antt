-- ===== src/Schema/People.antt =====
-- Employees, their attendance and their pay (prisma/schema.prisma). Amounts are whole hundredths.
use abyte_tex.Base.{ℕ, Option, Bool, ◌==◌, ℤ}

pub record Employee : Type 0 where
  pub id : ℕ
  pub tenant_id : ℕ
  pub factory_id : ℕ
  pub employee_code : ℕ
  pub last_name : ℕ
  pub department_id : Option ℕ
  pub shift_id : Option ℕ

pub data AttendanceStatus : Type 0 where
  present absent late half_day leave : AttendanceStatus

pub record Attendance : Type 0 where
  pub id : ℕ
  pub tenant_id : ℕ
  pub factory_id : ℕ
  pub employee_id : ℕ
  pub date : ℕ
  pub check_in : Option ℕ
  pub check_out : Option ℕ
  pub status : AttendanceStatus
  pub overtime_minutes : ℕ

pub data PayrollStatus : Type 0 where
  draft pending_approval approved paid : PayrollStatus

pub record PayrollPeriod : Type 0 where
  pub id : ℕ
  pub tenant_id : ℕ
  pub factory_id : ℕ
  pub period_start : ℕ
  pub period_end : ℕ
  pub status : PayrollStatus
  pub approved_by : Option ℕ
  pub approved_at : Option ℕ

pub record PayrollEntry : Type 0 where
  pub id : ℕ
  pub payroll_period_id : ℕ
  pub employee_id : ℕ
  pub base_salary : ℕ
  pub overtime_amount : ℕ
  pub incentive_amount : ℕ
  pub deductions : ℕ
  pub net_amount : ℤ

abbrev pub payroll_status_index : PayrollStatus → ℕ
payroll_status_index draft = 0
payroll_status_index pending_approval = 1
payroll_status_index approved = 2
payroll_status_index paid = 3

abbrev pub same_payroll_status : PayrollStatus → PayrollStatus → Bool
same_payroll_status a b = payroll_status_index a == payroll_status_index b
