-- ===== src/Downtime.antt =====
-- Downtimes of machines (apps/api/src/downtime/downtime.service.ts).
pub mod Closing
use abyte_tex.Base.{
  ℕ, ◌+◌, ◌-◌, ◌/◌, Bool, Option, none, some, ◌==◌, ◌&&◌, ltb, if◌then◌else◌, truthy,
}
use abyte_tex.Http.{ok, conflict, not_found, internal}
use abyte_tex.Context.{TenantRequestContext, assert_factory_access}
use abyte_tex.Schema
use abyte_tex.Schema.{
  Machine, MachineStatus, Downtime, DowntimeCategory, MaintenanceJob, MaintenanceStatus,
  MaintenanceType,
}
use abyte_tex.Database.{
  Prisma, Db, Action, ◌>>=◌, ◌>>◌, pure, throw, check, or_throw, transaction, log, machines,
  downtimes, maintenance_jobs, find_first, create, update,
}
use abyte_tex.Database.Raw
use abyte_tex.Maintenance.{generate_job_number, release_machine}

pub record CreateDowntimeDto : Type 0 where
  pub machine_id : ℕ
  pub department_id : Option ℕ
  pub operator_id : Option ℕ
  pub start_time : ℕ
  pub category : DowntimeCategory

-- `BREAKDOWN_CATEGORIES.has`
unfoldable pub is_breakdown : DowntimeCategory → Bool
is_breakdown DowntimeCategory.mechanical = Bool.true
is_breakdown DowntimeCategory.electrical = Bool.true
is_breakdown _ = Bool.false

-- `Math.max(0, Math.round((endTime - startTime) / 60000))`: a negative quotient rounds to 0 at
-- most, and one that is not is rounded half up.
unfoldable pub duration_minutes : ℕ → ℕ → ℕ
duration_minutes start_time end_time =
    if ltb end_time start_time then 0 else (end_time - start_time + 30000) / 60000

abbrev pub down_status : Bool → MachineStatus
down_status breakdown = if breakdown then MachineStatus.breakdown else MachineStatus.idle

abbrev pub closed : ℕ → ℕ → Downtime → Downtime
closed start_time end_time d = record d {
  end_time = some end_time;
  duration_minutes = some (duration_minutes start_time end_time);
}

module _ ⦃P : Prisma⦄ (ctx : TenantRequestContext) where
  unfoldable pub insert_downtime : CreateDowntimeDto → Action Downtime
  insert_downtime dto = transaction (do
    downtime ← create downtimes ctx (λ t id. record {
      id = id;
      tenant_id = t;
      machine_id = dto.machine_id;
      department_id = dto.department_id;
      operator_id = dto.operator_id;
      start_time = dto.start_time;
      end_time = none;
      duration_minutes = none;
      category = dto.category;
    })
    update machines ctx (λ m. m.id == dto.machine_id)
        (λ m. record m { status = down_status (is_breakdown dto.category) })
    pure downtime)

  -- The corrective job of a breakdown.
  unfoldable pub create_corrective : CreateDowntimeDto → ℕ → Machine → Action (Unit {0})
  create_corrective dto downtime_id machine = do
    job_number ← generate_job_number ctx
    create maintenance_jobs ctx (λ t id. record {
      id = id;
      tenant_id = t;
      factory_id = machine.factory_id;
      job_number = job_number;
      machine_id = dto.machine_id;
      type = MaintenanceType.corrective;
      downtime_id = some downtime_id;
      schedule_id = none;
      status = MaintenanceStatus.open_;
      scheduled_date = none;
      started_at = none;
      completed_at = none;
      technician_id = none;
      cost = none;
    })
    pure tt

  unfoldable pub create_downtime : CreateDowntimeDto → Action Downtime
  create_downtime dto = do
    or_throw (truthy ctx.tenant_id) conflict
    found ← find_first machines ctx (λ m. m.id == dto.machine_id)
    machine ← or_throw found not_found
    check (assert_factory_access ctx.factory_ids (some machine.factory_id))
    downtime ← insert_downtime dto
    (if is_breakdown dto.category then create_corrective dto downtime.id machine else pure tt)
    log ctx Schema.AuditAction.create Schema.EntityType.downtime downtime.id
    pure downtime

  -- `include: { machine: true }`; the relation is required, and the query's scope is not added to it.
  abbrev pub machine_of : ℕ → Action Machine
  machine_of machine_id = do
    found ← Raw.find_first machines (λ m. m.id == machine_id)
    or_throw found internal

  -- The downtime with the machine that it includes.
  unfoldable pub get_by_id : ℕ → Action Downtime
  get_by_id id = do
    found ← find_first downtimes ctx (λ d. d.id == id)
    downtime ← or_throw found not_found
    machine ← machine_of downtime.machine_id
    check (assert_factory_access ctx.factory_ids (some machine.factory_id))
    pure downtime

  unfoldable pub store_closed : ℕ → Downtime → ℕ → Action Downtime
  store_closed id existing end_time = transaction (do
    updated ← update downtimes ctx (λ d. d.id == id) (closed existing.start_time end_time)
    release_machine ctx existing.machine_id (λ j. Bool.true)
    pure updated)

  unfoldable pub close : ℕ → ℕ → Action Downtime
  close id end_time = do
    existing ← get_by_id id
    updated ← store_closed id existing end_time
    log ctx Schema.AuditAction.update Schema.EntityType.downtime id
    pure updated
