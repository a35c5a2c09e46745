-- ===== src/Payroll/Entries.antt =====
-- The entries of a payroll period.
use abyte_tex.Base.{
  ℕ, pos, ◌-ℤ◌, ◌+◌, ◌≡◌, refl, true, Option, none, some, List, ◌==◌, ◌&&◌, All, All-image, All-of,
  truthy, arith, if◌then◌else◌, Bool-cases, inl, inr,
}
use abyte_tex.Http.{ok, err, conflict}
use abyte_tex.Context.{TenantRequestContext, assert_factory_access}
use abyte_tex.Schema.{Employee, PayrollPeriod, PayrollEntry, PayrollStatus, same_payroll_status}
use abyte_tex.Payroll.{
  AddPayrollEntryDto, entry_row, is_entry, refilled, upsert_entry, get_by_id, add_entry,
}
use abyte_tex.Database.{Prisma, Db}
use abyte_tex.Database.Creation.{true-not_false}
use abyte_tex.Database.Laws.{All-create}

module _ ⦃P : Prisma⦄ (period_id : ℕ) (dto : AddPayrollEntryDto) (db : Db) where
  -- The entries, and the identifiers drawn, after the upsert.
  abbrev pub earlier : Option PayrollEntry
  earlier = P.find_first (is_entry period_id dto.employee_id) db.plant.payroll_entries

  abbrev pub entries_for : Option PayrollEntry → List PayrollEntry
  entries_for none =
      P.create (entry_row period_id dto (P.cuid db.generated)) db.plant.payroll_entries
  entries_for (some r) =
      P.update (is_entry period_id dto.employee_id) (refilled dto) db.plant.payroll_entries

  abbrev pub entries_after : List PayrollEntry
  entries_after = entries_for earlier

  abbrev pub upserted : PayrollEntry
  upserted = elim (P.find_first (is_entry period_id dto.employee_id) db.plant.payroll_entries) [
    | none ↦ entry_row period_id dto (P.cuid db.generated)
    | some r ↦ refilled dto r
  ]

  abbrev pub drawn : ℕ
  drawn = elim (P.find_first (is_entry period_id dto.employee_id) db.plant.payroll_entries) [
    | none ↦ db.generated + 1
    | some r ↦ db.generated
  ]

  abbrev pub entered_db : Db
  entered_db = record db {
    plant = record db.plant { payroll_entries = entries_after };
    generated = drawn;
  }

  upsert_entry_lem : upsert_entry period_id dto db ≡ (ok upserted, entered_db)
  unfolding upsert_entry
  upsert_entry_lem = ground arith

  -- An entry of the employee in the period pays what was added last.
  abbrev pub IsPaid : PayrollEntry → Type 0
  IsPaid r =
      is_entry period_id dto.employee_id r ≡ true
      → r.net_amount
        ≡ pos (dto.base_salary + dto.overtime_amount + dto.incentive_amount) -ℤ pos dto.deductions

  entries_for_pay : (o : Option PayrollEntry) → earlier ≡ o → All IsPaid (entries_for o)
  entries_for_pay none e =
      All-create IsPaid (entry_row period_id dto (P.cuid db.generated)) db.plant.payroll_entries
        (All-of IsPaid db.plant.payroll_entries (λ r m h. absurd (
          true-not_false h (
            P.find_first-none (is_entry period_id dto.employee_id) db.plant.payroll_entries r e
              m))))
        (λ h. refl)
  entries_for_pay (some s) e = rw P.update_lem (
      All-image IsPaid (λ r. if is_entry period_id dto.employee_id r then refilled dto r else r)
        db.plant.payroll_entries
        (λ r m. elim (Bool-cases (is_entry period_id dto.employee_id r)) [
          | inl b ↦ rw b (λ h. refl)
          | inr b ↦ rw b (λ h. absurd (true-not_false h b))
        ]))

  -- An entry for an employee of the tenant in a period that is found, by a user with access to the
  -- factory of the period, is stored exactly while the period is DRAFT; otherwise it is a 409 and
  -- nothing changes. Storing it fills the entry of the employee in the period that is there, or
  -- creates it, writes nothing else, and leaves no entry of the employee in the period with a net
  -- amount other than base salary plus overtime plus incentive less deductions.
  pub add_entry_lem :
      (ctx : TenantRequestContext) (t : ℕ) (period : PayrollPeriod) (employee : Employee)
      → truthy ctx.tenant_id ≡ some t
      → P.find_first (λ p. (p.tenant_id == t) && (p.id == period_id)) db.plant.payroll_periods
        ≡ some period
      → assert_factory_access ctx.factory_ids (some period.factory_id) ≡ ok tt
      → P.find_first (λ x. (x.tenant_id == t) && (x.id == dto.employee_id)) db.plant.employees
        ≡ some employee
      → (add_entry ctx period_id dto db ≡ (
          if same_payroll_status period.status PayrollStatus.draft
          then (ok upserted, entered_db)
          else (err conflict, db)))
        × All IsPaid entries_after
  unfolding add_entry get_by_id
  add_entry_lem ctx t period employee e found access there =
      (ground (arith, upsert_entry_lem), entries_for_pay earlier refl)
