-- ===== src/Tests/PlantRuns.antt =====
-- The properties of maintenance, attendance and pay on the sample.
use abyte_tex.Base.{◌+◌, ◌*◌, ◌≤◌, ◌<◌, ◌≡◌, refl, some, none, [], ◌∷◌, All}
use abyte_tex.Http.{ok}
use abyte_tex.Context.{assert_factory_access}
use abyte_tex.Schema.{
  maintenance_status, MaintenanceStatus, MachineStatus, AttendanceStatus, AuditAction, EntityType,
}
use abyte_tex.Maintenance.{UpdateMaintenanceJobDto, job_transitions, update_job, edited}
use abyte_tex.Maintenance.Completion.{update_job_lem}
use abyte_tex.Downtime.{duration_minutes, close, closed}
use abyte_tex.Downtime.Closing.{duration_minutes_lem, close_lem}
use abyte_tex.Attendance.{MarkAttendanceDto}
use abyte_tex.Payroll.{AddPayrollEntryDto, add_entry}
use abyte_tex.Payroll.Entries.{upserted, entered_db, entries_after, IsPaid, add_entry_lem}
use abyte_tex.Tests.{list_prisma, list_first}
use abyte_tex.Tests.PlantSamples.{loom, stop, repair, weekly, weaver, month}
use abyte_tex.Tests.Samples.{request, sample}

abbrev done : UpdateMaintenanceJobDto
done = record {
  status = some MaintenanceStatus.completed;
  started_at = none;
  completed_at = some 90;
  technician_id = none;
  cost = some 1200;
}

-- The only job of the machine is completed.
update_job_lem_example : update_job request 32 done sample ≡ (
  ok (edited done repair),
  record sample {
    plant = record sample.plant {
      maintenance_jobs = edited done repair ∷ [];
      machines = record loom { status = MachineStatus.running } ∷ [];
      maintenance_schedules =
          record weekly { last_performed_at = some 100; next_due_at = some 604800100 } ∷ [];
    };
    audit_log =
        record {
          tenant_id = some 1;
          user_id = 8;
          action = AuditAction.update;
          entity_type = EntityType.maintenance_job;
          entity_id = 32;
        }
        ∷ [];
  },
)
unfolding list_first job_transitions assert_factory_access
update_job_lem_example =
    update_job_lem request 1 refl 32 done sample repair loom refl refl refl refl

-- The job of the machine is open.
close_lem_example : close request 31 150000 sample ≡ (
  ok (closed 60000 150000 stop),
  record sample {
    plant = record sample.plant { downtimes = closed 60000 150000 stop ∷ [] };
    audit_log =
        record {
          tenant_id = some 1;
          user_id = 8;
          action = AuditAction.update;
          entity_type = EntityType.downtime;
          entity_id = 31;
        }
        ∷ [];
  },
)
unfolding list_first assert_factory_access
close_lem_example = close_lem request 1 31 150000 sample stop refl loom refl refl refl refl

duration_minutes_lem_example :
    (60000 * duration_minutes 60000 150000 ≤ 120000)
    × (90000 < 60000 * duration_minutes 60000 150000 + 30000)
duration_minutes_lem_example = duration_minutes_lem 60000 150000

abbrev present : MarkAttendanceDto
present = record {
  employee_id = 35;
  date = 20000;
  check_in = some 8;
  check_out = none;
  status = AttendanceStatus.present;
  overtime_minutes = none;
}

abbrev pay : AddPayrollEntryDto
pay = record {
  employee_id = 35;
  base_salary = 50000;
  overtime_amount = 2000;
  incentive_amount = 0;
  deductions = 1500;
}

add_entry_lem_example :
    (add_entry request 36 pay sample ≡ (ok (upserted 36 pay sample), entered_db 36 pay sample))
    × All (IsPaid 36 pay sample) (entries_after 36 pay sample)
unfolding list_first assert_factory_access
add_entry_lem_example = add_entry_lem 36 pay sample request 1 month weaver refl refl refl refl
