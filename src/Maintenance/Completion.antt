-- ===== src/Maintenance/Completion.antt =====
-- The completion of a maintenance job: the machine and the schedule.
use abyte_tex.Base.{
  ℕ, ◌+◌, ◌*◌, ◌≡◌, refl, ◌∙◌, Bool, Option, none, some, List, [], ◌∷◌, ◌==◌, ◌&&◌, not, any,
  any_cong, any-map, filter, length, if◌then◌else◌, truthy, arith, Bool-cases, Option-cases, inl,
  inr,
}
use abyte_tex.Http.{ok, err, bad_request}
use abyte_tex.Context.{TenantRequestContext, assert_factory_access}
use abyte_tex.Workflow.{assert_valid_transition}
use abyte_tex.Schema.{
  Machine, MachineStatus, MaintenanceJob, MaintenanceSchedule, MaintenanceStatus,
  maintenance_status, AuditAction, EntityType,
}
use abyte_tex.Maintenance.{
  UpdateMaintenanceJobDto, job_transitions, day, is_open, edited, get_by_id, release_machine,
  advance_schedule, after_update, store_update, update_job,
}
use abyte_tex.Database.{Prisma, Db}

count-none : {A : Type 0} (p : A → Bool) (l : List A) → (length (filter p l) == 0) ≡ not (any p l)
count-none p [] = refl
count-none p (x ∷ l) = ground (arith, count-none p l)

-- Whether a job that is counted keeps the machine.
abbrev pub is_held : ℕ → ℕ → (MaintenanceJob → Bool) → Db → Bool
is_held t machine_id counted db =
    any
      (λ j. (j.tenant_id == t) && ((j.machine_id == machine_id) && (counted j && is_open j.status)))
      db.plant.maintenance_jobs

abbrev pub released : ⦃P : Prisma⦄ → ℕ → ℕ → Db → List Machine
released ⦃P⦄ t machine_id db =
    P.update (λ m. (m.tenant_id == t) && (m.id == machine_id))
      (λ m. record m { status = MachineStatus.running }) db.plant.machines

module _ ⦃P : Prisma⦄ (ctx : TenantRequestContext) (t : ℕ) where
  -- The schedules after the job of one of them was done.
  abbrev pub advanced : Option ℕ → Db → List MaintenanceSchedule
  advanced none db = db.plant.maintenance_schedules
  advanced (some schedule_id) db =
      elim (P.find_first (λ s. (s.tenant_id == t) && (s.id == schedule_id))
        db.plant.maintenance_schedules) [
          | none ↦ db.plant.maintenance_schedules
          | some schedule ↦
              P.update (λ s. (s.tenant_id == t) && (s.id == schedule_id))
                (λ s. record s {
                  last_performed_at = some ctx.now;
                  next_due_at = some (ctx.now + schedule.frequency_days * day);
                })
                db.plant.maintenance_schedules
        ]

module _ ⦃P : Prisma⦄ (ctx : TenantRequestContext) (t : ℕ) (e : truthy ctx.tenant_id ≡ some t) where
  pub release_machine_lem :
      (machine_id : ℕ) (counted : MaintenanceJob → Bool) (machine : Machine) (db : Db)
      → P.find_first (λ m. (m.tenant_id == t) && (m.id == machine_id)) db.plant.machines
        ≡ some machine
      → release_machine ctx machine_id counted db ≡ (
        ok tt,
        record db {
          plant = record db.plant {
            machines =
                if is_held t machine_id counted db
                then db.plant.machines
                else released t machine_id db;
          };
        },
      )
  unfolding release_machine
  release_machine_lem machine_id counted machine db found = ground (
    arith,
    P.count_lem
        (λ j.
          (j.tenant_id == t) && ((j.machine_id == machine_id) && (counted j && is_open j.status)))
        db.plant.maintenance_jobs,
    count-none
        (λ j.
          (j.tenant_id == t) && ((j.machine_id == machine_id) && (counted j && is_open j.status)))
        db.plant.maintenance_jobs,
  )

  advance_schedule_lem :
      (schedule_id : ℕ) (db : Db)
      → advance_schedule ctx schedule_id db ≡ (
        ok tt,
        record db {
          plant = record db.plant { maintenance_schedules = advanced ctx t (some schedule_id) db };
        },
      )
  unfolding advance_schedule
  advance_schedule_lem schedule_id db = ground arith

  module _ (id : ℕ) (existing : MaintenanceJob) (machine : Machine) (db : Db)
      (running : P.find_first
          (λ m. (m.tenant_id == t) && (m.id == existing.machine_id))
          db.plant.machines
        ≡ some machine) where
    abbrev others : MaintenanceJob → Bool
    others j = not (j.id == id)

    abbrev freed : Db
    freed = record db {
      plant = record db.plant {
        machines =
            if is_held t existing.machine_id others db
            then db.plant.machines
            else released t existing.machine_id db;
      };
    }

    -- The machine and the schedule after the job was completed.
    abbrev pub completed_db : Db
    completed_db = record db {
      plant = record db.plant {
        machines =
            if is_held t existing.machine_id others db
            then db.plant.machines
            else released t existing.machine_id db;
        maintenance_schedules = advanced ctx t (truthy existing.schedule_id) db;
      };
    }

    freed_lem : release_machine ctx existing.machine_id others db ≡ (ok tt, freed)
    freed_lem = release_machine_lem existing.machine_id others machine db running

    after_update_lem :
        after_update ctx id existing (some MaintenanceStatus.completed) db ≡ (ok tt, completed_db)
    unfolding after_update
    after_update_lem = elim (Option-cases (truthy existing.schedule_id)) [
      | inl n ↦ ground (arith, release_machine_lem existing.machine_id others machine db running)
      | inr (s, n) ↦ ground (arith, freed_lem, advance_schedule_lem s freed)
    ]

valid_lem :
    (s : MaintenanceStatus)
    → assert_valid_transition job_transitions s MaintenanceStatus.completed
      ≡ (if is_open s then ok tt else err bad_request)
unfolding assert_valid_transition job_transitions
valid_lem s = ground arith

module _ ⦃P : Prisma⦄ (ctx : TenantRequestContext) (t : ℕ) (e : truthy ctx.tenant_id ≡ some t)
    (id : ℕ) (dto : UpdateMaintenanceJobDto) (db : Db) (existing : MaintenanceJob)
    (machine : Machine)
    (found : P.find_first (λ j. (j.tenant_id == t) && (j.id == id)) db.plant.maintenance_jobs
      ≡ some existing)
    (running : P.find_first
        (λ m. (m.tenant_id == t) && (m.id == existing.machine_id))
        db.plant.machines
      ≡ some machine)
    (access : assert_factory_access ctx.factory_ids (some existing.factory_id) ≡ ok tt)
    (status : dto.status ≡ some MaintenanceStatus.completed) where
  get_by_id_lem : get_by_id ctx id db ≡ (ok existing, db)
  unfolding get_by_id
  get_by_id_lem = ground arith

  -- The database with the job edited.
  abbrev pub edited_db : Db
  edited_db = record db {
    plant = record db.plant {
      maintenance_jobs =
          P.update (λ j. (j.tenant_id == t) && (j.id == id)) (edited dto) db.plant.maintenance_jobs;
    };
  }

  store_update_lem :
      store_update ctx id existing dto db
      ≡ (ok (edited dto existing), completed_db ctx t e id existing machine edited_db running)
  unfolding store_update
  store_update_lem = ground (arith, after_update_lem ctx t e id existing machine edited_db running)

  -- Editing the job makes it no other job.
  held_same :
      is_held t existing.machine_id (λ j. not (j.id == id)) edited_db
      ≡ is_held t existing.machine_id (λ j. not (j.id == id)) db
  held_same = rw P.update_lem (
      any-map
        (λ j.
          (j.tenant_id == t)
          && ((j.machine_id == existing.machine_id) && (not (j.id == id) && is_open j.status)))
        (λ r. if (r.tenant_id == t) && (r.id == id) then edited dto r else r)
        db.plant.maintenance_jobs
      ∙ any_cong _ _ db.plant.maintenance_jobs (λ r.
        elim (Bool-cases ((r.tenant_id == t) && (r.id == id))) [
          | inl b ↦ rw b (ground arith)
          | inr b ↦ rw b
        ]))

  -- Completing a job that is found, that the user may access and whose machine is there succeeds
  -- exactly when the job is OPEN or IN_PROGRESS; otherwise it is a 400
  -- and nothing changes. It then writes the edit to that job, sets the machine RUNNING unless
  -- another job of the machine is OPEN or IN_PROGRESS, in which case the machine stays as it was,
  -- sets the next due date of the schedule that the job satisfies, if there is one, to its
  -- frequency in days from now, writes one audit entry, and changes nothing else.
  pub update_job_lem : update_job ctx id dto db ≡ (
      if is_open existing.status
      then (
        ok (edited dto existing),
        record edited_db {
          plant = record edited_db.plant {
            machines =
                if is_held t existing.machine_id (λ j. not (j.id == id)) db
                then db.plant.machines
                else released t existing.machine_id db;
            maintenance_schedules = advanced ctx t (truthy existing.schedule_id) db;
          };
          audit_log =
              record {
                tenant_id = ctx.tenant_id;
                user_id = ctx.user_id;
                action = AuditAction.update;
                entity_type = EntityType.maintenance_job;
                entity_id = id;
              }
              ∷ db.audit_log;
        },
      )
      else (err bad_request, db))
  unfolding update_job
  update_job_lem =
      ground (arith, get_by_id_lem, valid_lem existing.status, store_update_lem, held_same)
