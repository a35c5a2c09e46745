-- ===== src/Schema/Maintenance.antt =====
-- Machines, their downtimes and their maintenance (prisma/schema.prisma). Times are milliseconds
-- since the epoch, costs whole hundredths.
use abyte_tex.Base.{ℕ, Option, Bool, true, ◌≡◌, ◌==◌, ==_refl, arith}
use abyte_tex.Workflow.{Status}

pub data MachineStatus : Type 0 where
  running idle breakdown maintenance offline : MachineStatus

pub record Machine : Type 0 where
  pub id : ℕ
  pub tenant_id : ℕ
  pub factory_id : ℕ
  pub machine_code : ℕ
  pub name : ℕ
  pub department_id : Option ℕ
  pub status : MachineStatus

pub data DowntimeCategory : Type 0 where
  mechanical electrical material_shortage operator_issue maintenance power_failure :
      DowntimeCategory
  production_changeover other : DowntimeCategory

pub record Downtime : Type 0 where
  pub id : ℕ
  pub tenant_id : ℕ
  pub machine_id : ℕ
  pub department_id : Option ℕ
  pub operator_id : Option ℕ
  pub start_time : ℕ
  pub end_time : Option ℕ
  pub duration_minutes : Option ℕ
  pub category : DowntimeCategory

pub data MaintenanceType : Type 0 where
  corrective preventive : MaintenanceType

pub data MaintenanceStatus : Type 0 where
  open_ in_progress completed cancelled : MaintenanceStatus

pub record MaintenanceJob : Type 0 where
  pub id : ℕ
  pub tenant_id : ℕ
  pub factory_id : ℕ
  pub job_number : ℕ
  pub machine_id : ℕ
  pub type : MaintenanceType
  pub downtime_id : Option ℕ
  pub schedule_id : Option ℕ
  pub status : MaintenanceStatus
  pub scheduled_date : Option ℕ
  pub started_at : Option ℕ
  pub completed_at : Option ℕ
  pub technician_id : Option ℕ
  pub cost : Option ℕ

pub record MaintenanceSchedule : Type 0 where
  pub id : ℕ
  pub tenant_id : ℕ
  pub machine_id : ℕ
  pub frequency_days : ℕ
  pub last_performed_at : Option ℕ
  pub next_due_at : Option ℕ

abbrev pub maintenance_index : MaintenanceStatus → ℕ
maintenance_index MaintenanceStatus.open_ = 0
maintenance_index MaintenanceStatus.in_progress = 1
maintenance_index MaintenanceStatus.completed = 2
maintenance_index MaintenanceStatus.cancelled = 3

abbrev pub same_maintenance_status : MaintenanceStatus → MaintenanceStatus → Bool
same_maintenance_status a b = maintenance_index a == maintenance_index b

pub same_maintenance→≡ : (a b : MaintenanceStatus) → same_maintenance_status a b ≡ true → a ≡ b
same_maintenance→≡ a b h = ground arith

instance abbrev pub maintenance_status : Status MaintenanceStatus
maintenance_status = record {
  same = same_maintenance_status;
  same→≡ = same_maintenance→≡;
  same_refl = λ a. ==_refl (maintenance_index a);
}
