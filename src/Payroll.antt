-- ===== src/Payroll.antt =====
-- Payroll periods and their entries (apps/api/src/payroll/payroll.service.ts). Amounts are whole
-- hundredths; the lists of the queries are left out.
pub mod Entries
use abyte_tex.Base.{
  ℕ, ◌+◌, Bool, Option, none, some, ◌==◌, ◌&&◌, not, if◌then◌else◌, truthy, ℤ, pos, ◌-ℤ◌,
}
use abyte_tex.Http.{ok, conflict, not_found}
use abyte_tex.Context.{TenantRequestContext, assert_factory_access}
use abyte_tex.Schema
use abyte_tex.Schema.{
  PayrollPeriod, PayrollEntry, PayrollStatus, same_payroll_status, Factory, Employee,
}
use abyte_tex.Database.{
  Prisma, Db, Action, ◌>>=◌, ◌>>◌, pure, throw, check, or_throw, reject_if, log, factories,
  employees, payroll_periods, payroll_entries, find_first, create, update,
}
use abyte_tex.Database.Raw

pub record CreatePayrollPeriodDto : Type 0 where
  pub factory_id : ℕ
  pub period_start : ℕ
  pub period_end : ℕ

pub record AddPayrollEntryDto : Type 0 where
  pub employee_id : ℕ
  pub base_salary : ℕ
  pub overtime_amount : ℕ
  pub incentive_amount : ℕ
  pub deductions : ℕ

abbrev pub net_amount : AddPayrollEntryDto → ℤ
net_amount dto =
    pos (dto.base_salary + dto.overtime_amount + dto.incentive_amount) -ℤ pos dto.deductions

-- The entry that `upsert` creates, and the one that it makes of an entry that is there.
abbrev pub entry_row : ℕ → AddPayrollEntryDto → ℕ → PayrollEntry
entry_row period_id dto id = record {
  id = id;
  payroll_period_id = period_id;
  employee_id = dto.employee_id;
  base_salary = dto.base_salary;
  overtime_amount = dto.overtime_amount;
  incentive_amount = dto.incentive_amount;
  deductions = dto.deductions;
  net_amount = net_amount dto;
}

abbrev pub is_entry : ℕ → ℕ → PayrollEntry → Bool
is_entry period_id employee_id r =
    (r.payroll_period_id == period_id) && (r.employee_id == employee_id)

abbrev pub refilled : AddPayrollEntryDto → PayrollEntry → PayrollEntry
refilled dto r = entry_row r.payroll_period_id dto r.id

module _ ⦃P : Prisma⦄ where
  unfoldable pub upsert_entry : ℕ → AddPayrollEntryDto → Action PayrollEntry
  upsert_entry period_id dto = do
    found ← Raw.find_first payroll_entries (is_entry period_id dto.employee_id)
    elim found [
      | none ↦ Raw.create payroll_entries (entry_row period_id dto)
      | some r ↦ Raw.update payroll_entries (is_entry period_id dto.employee_id) (refilled dto)
    ]

  module _ (ctx : TenantRequestContext) where
    unfoldable pub create_period : CreatePayrollPeriodDto → Action PayrollPeriod
    create_period dto = do
      or_throw (truthy ctx.tenant_id) conflict
      check (assert_factory_access ctx.factory_ids (some dto.factory_id))
      factory ← find_first factories ctx (λ f. f.id == dto.factory_id)
      or_throw factory not_found
      create payroll_periods ctx (λ t id. record {
        id = id;
        tenant_id = t;
        factory_id = dto.factory_id;
        period_start = dto.period_start;
        period_end = dto.period_end;
        status = PayrollStatus.draft;
        approved_by = none;
        approved_at = none;
      })

    unfoldable pub get_by_id : ℕ → Action PayrollPeriod
    get_by_id id = do
      found ← find_first payroll_periods ctx (λ p. p.id == id)
      period ← or_throw found not_found
      check (assert_factory_access ctx.factory_ids (some period.factory_id))
      pure period

    unfoldable pub add_entry : ℕ → AddPayrollEntryDto → Action PayrollEntry
    add_entry period_id dto = do
      period ← get_by_id period_id
      reject_if (not (same_payroll_status period.status PayrollStatus.draft)) conflict
      employee ← find_first employees ctx (λ e. e.id == dto.employee_id)
      or_throw employee not_found
      upsert_entry period_id dto

    -- Approval leaves the name of the user and the time.
    abbrev pub with_status : PayrollStatus → PayrollPeriod → PayrollPeriod
    with_status PayrollStatus.approved p = record p {
      status = PayrollStatus.approved;
      approved_by = some ctx.user_id;
      approved_at = some ctx.now;
    }
    with_status next p = record p { status = next }

    abbrev pub status_action : PayrollStatus → Schema.AuditAction
    status_action PayrollStatus.approved = Schema.AuditAction.approve
    status_action next = Schema.AuditAction.update

    unfoldable pub update_status : ℕ → PayrollStatus → Action PayrollPeriod
    update_status id next = do
      existing ← get_by_id id
      updated ← update payroll_periods ctx (λ p. p.id == id) (with_status next)
      log ctx (status_action next) Schema.EntityType.payroll_period id
      pure updated
