-- ===== src/Maintenance.antt =====
-- Maintenance jobs and schedules (apps/api/src/maintenance/maintenance.service.ts). The lists of the
-- queries and their order are left out.
pub mod Completion
use abyte_tex.Base.{
  ℕ, ◌+◌, ◌*◌, Bool, Option, none, some, List, [], ◌∷◌, ◌==◌, ◌==?◌, ◌&&◌, ◌||◌, not, leb, any,
  if◌then◌else◌, truthy,
}
use abyte_tex.Http.{ok, conflict, not_found}
use abyte_tex.Context.{TenantRequestContext, assert_factory_access, includes}
use abyte_tex.Workflow.{assert_valid_transition}
use abyte_tex.Schema
use abyte_tex.Schema.{
  Machine, MachineStatus, MaintenanceJob, MaintenanceSchedule, MaintenanceStatus, MaintenanceType,
  maintenance_status, same_maintenance_status,
}
use abyte_tex.Database.{
  Prisma, Db, Action, ◌>>=◌, ◌>>◌, pure, throw, check, or_throw, transaction, log, machines,
  maintenance_jobs, maintenance_schedules, find_first, find_many, count, create, update,
}

-- `MAINTENANCE_JOB_TRANSITIONS`
unfoldable pub job_transitions : MaintenanceStatus → List MaintenanceStatus
job_transitions MaintenanceStatus.open_ =
    MaintenanceStatus.in_progress ∷ MaintenanceStatus.completed ∷ MaintenanceStatus.cancelled ∷ []
job_transitions MaintenanceStatus.in_progress =
    MaintenanceStatus.completed ∷ MaintenanceStatus.cancelled ∷ []
job_transitions MaintenanceStatus.completed = []
job_transitions MaintenanceStatus.cancelled = []

pub record CreateMaintenanceJobDto : Type 0 where
  pub factory_id : ℕ
  pub machine_id : ℕ
  pub schedule_id : Option ℕ
  pub scheduled_date : Option ℕ
  pub technician_id : Option ℕ

pub record UpdateMaintenanceJobDto : Type 0 where
  pub status : Option MaintenanceStatus
  pub started_at : Option ℕ
  pub completed_at : Option ℕ
  pub technician_id : Option ℕ
  pub cost : Option ℕ

pub record CreateMaintenanceScheduleDto : Type 0 where
  pub machine_id : ℕ
  pub frequency_days : ℕ

-- A field of an `update`: `undefined` leaves the column.
abbrev pub or_keep : {A : Type 0} → Option A → A → A
or_keep none old = old
or_keep (some new) old = new

abbrev pub or_keep_null : Option ℕ → Option ℕ → Option ℕ
or_keep_null none old = old
or_keep_null (some new) old = some new

abbrev pub day : ℕ
day = 24 * 60 * 60 * 1000

-- The jobs that keep a machine from running.
abbrev pub is_open : MaintenanceStatus → Bool
is_open s =
    same_maintenance_status s MaintenanceStatus.open_
    || same_maintenance_status s MaintenanceStatus.in_progress

abbrev pub edited : UpdateMaintenanceJobDto → MaintenanceJob → MaintenanceJob
edited dto job = record job {
  status = or_keep dto.status job.status;
  started_at = or_keep_null dto.started_at job.started_at;
  completed_at = or_keep_null dto.completed_at job.completed_at;
  technician_id = or_keep_null dto.technician_id job.technician_id;
  cost = or_keep_null dto.cost job.cost;
}

module _ ⦃P : Prisma⦄ (ctx : TenantRequestContext) where
  unfoldable pub generate_job_number : Action ℕ
  generate_job_number = do n ← count maintenance_jobs ctx (λ j. Bool.true); pure (n + 1)

  unfoldable pub create_job : CreateMaintenanceJobDto → Action MaintenanceJob
  create_job dto = do
    or_throw (truthy ctx.tenant_id) conflict
    check (assert_factory_access ctx.factory_ids (some dto.factory_id))
    machine ← find_first machines ctx (λ m. m.id == dto.machine_id)
    or_throw machine not_found
    job_number ← generate_job_number
    job ← create maintenance_jobs ctx (λ t id. record {
      id = id;
      tenant_id = t;
      factory_id = dto.factory_id;
      job_number = job_number;
      machine_id = dto.machine_id;
      type = MaintenanceType.preventive;
      downtime_id = none;
      schedule_id = dto.schedule_id;
      status = MaintenanceStatus.open_;
      scheduled_date = dto.scheduled_date;
      started_at = none;
      completed_at = none;
      technician_id = dto.technician_id;
      cost = none;
    })
    log ctx Schema.AuditAction.create Schema.EntityType.maintenance_job job.id
    pure job

  unfoldable pub get_by_id : ℕ → Action MaintenanceJob
  get_by_id id = do
    found ← find_first maintenance_jobs ctx (λ j. j.id == id)
    job ← or_throw found not_found
    check (assert_factory_access ctx.factory_ids (some job.factory_id))
    pure job

  -- The machine runs again, unless a job that is counted is open.
  unfoldable pub release_machine : ℕ → (MaintenanceJob → Bool) → Action (Unit {0})
  release_machine machine_id counted = do
    open_jobs ←
        count maintenance_jobs ctx
          (λ j. (j.machine_id == machine_id) && (counted j && is_open j.status))
    (if open_jobs == 0
        then update machines ctx (λ m. m.id == machine_id)
            (λ m. record m { status = MachineStatus.running })
          >> pure tt
        else pure tt)

  -- The next due date of the schedule that a job satisfies.
  unfoldable pub advance_schedule : ℕ → Action (Unit {0})
  advance_schedule schedule_id = do
    found ← find_first maintenance_schedules ctx (λ s. s.id == schedule_id)
    elim found [
      | none ↦ pure tt
      | some schedule ↦
          update maintenance_schedules ctx (λ s. s.id == schedule_id)
            (λ s. record s {
              last_performed_at = some ctx.now;
              next_due_at = some (ctx.now + schedule.frequency_days * day);
            })
          >> pure tt
    ]

  -- What completing a job does beside.
  unfoldable pub after_update : ℕ → MaintenanceJob → Option MaintenanceStatus → Action (Unit {0})
  after_update id existing (some MaintenanceStatus.completed) = do
    release_machine existing.machine_id (λ j. not (j.id == id))
    elim (truthy existing.schedule_id) [
      | none ↦ pure tt
      | some schedule_id ↦ advance_schedule schedule_id
    ]
  after_update id existing _ = pure tt

  abbrev pub check_status : MaintenanceJob → Option MaintenanceStatus → Action (Unit {0})
  check_status existing none = pure tt
  check_status existing (some next) =
      check (assert_valid_transition job_transitions existing.status next)

  unfoldable pub store_update : ℕ → MaintenanceJob → UpdateMaintenanceJobDto → Action MaintenanceJob
  store_update id existing dto = transaction (do
    updated ← update maintenance_jobs ctx (λ j. j.id == id) (edited dto)
    after_update id existing dto.status
    pure updated)

  unfoldable pub update_job : ℕ → UpdateMaintenanceJobDto → Action MaintenanceJob
  update_job id dto = do
    existing ← get_by_id id
    check_status existing dto.status
    updated ← store_update id existing dto
    log ctx Schema.AuditAction.update Schema.EntityType.maintenance_job id
    pure updated

  unfoldable pub create_schedule : CreateMaintenanceScheduleDto → Action MaintenanceSchedule
  create_schedule dto = do
    or_throw (truthy ctx.tenant_id) conflict
    found ← find_first machines ctx (λ m. m.id == dto.machine_id)
    machine ← or_throw found not_found
    check (assert_factory_access ctx.factory_ids (some machine.factory_id))
    create maintenance_schedules ctx (λ t id. record {
      id = id;
      tenant_id = t;
      machine_id = dto.machine_id;
      frequency_days = dto.frequency_days;
      last_performed_at = none;
      next_due_at = some (ctx.now + dto.frequency_days * day);
    })

  -- `listDueSoon`, with the factories of the user: a schedule is of the factory of its machine.
  abbrev pub of_factories : List Machine → MaintenanceSchedule → Bool
  of_factories all s = elim ctx.factory_ids [
    | [] ↦ Bool.true
    | f ∷ fs ↦ any (λ m. (m.id == s.machine_id) && includes m.factory_id (f ∷ fs)) all
  ]

  abbrev pub is_due : ℕ → MaintenanceSchedule → Bool
  is_due limit s = elim s.next_due_at [ none ↦ Bool.false | some due ↦ leb due limit ]

  unfoldable pub list_due_soon : Action (List MaintenanceSchedule)
  list_due_soon = do
    all ← find_many machines ctx (λ m. Bool.true)
    find_many maintenance_schedules ctx (λ s. is_due (ctx.now + 7 * day) s && of_factories all s)
