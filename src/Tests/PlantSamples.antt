-- ===== src/Tests/PlantSamples.antt =====
-- The machines, the maintenance and the people of the sample.
use abyte_tex.Base.{none, some, [], ◌∷◌}
use abyte_tex.Schema.{
  Machine, MachineStatus, Downtime, DowntimeCategory, MaintenanceJob, MaintenanceType,
  MaintenanceStatus, MaintenanceSchedule, Employee, PayrollPeriod, PayrollStatus,
}
use abyte_tex.Database.{PlantDb}

abbrev pub loom : Machine
loom = record {
  id = 30;
  tenant_id = 1;
  factory_id = 4;
  machine_code = 1;
  name = 1;
  department_id = none;
  status = MachineStatus.breakdown;
}

abbrev pub stop : Downtime
stop = record {
  id = 31;
  tenant_id = 1;
  machine_id = 30;
  department_id = none;
  operator_id = none;
  start_time = 60000;
  end_time = none;
  duration_minutes = none;
  category = DowntimeCategory.mechanical;
}

abbrev pub repair : MaintenanceJob
repair = record {
  id = 32;
  tenant_id = 1;
  factory_id = 4;
  job_number = 1;
  machine_id = 30;
  type = MaintenanceType.preventive;
  downtime_id = none;
  schedule_id = some 34;
  status = MaintenanceStatus.in_progress;
  scheduled_date = none;
  started_at = none;
  completed_at = none;
  technician_id = none;
  cost = none;
}

abbrev pub weekly : MaintenanceSchedule
weekly = record {
  id = 34;
  tenant_id = 1;
  machine_id = 30;
  frequency_days = 7;
  last_performed_at = none;
  next_due_at = some 50;
}

abbrev pub weaver : Employee
weaver = record {
  id = 35;
  tenant_id = 1;
  factory_id = 4;
  employee_code = 1;
  last_name = 1;
  department_id = none;
  shift_id = none;
}

abbrev pub month : PayrollPeriod
month = record {
  id = 36;
  tenant_id = 1;
  factory_id = 4;
  period_start = 1;
  period_end = 31;
  status = PayrollStatus.draft;
  approved_by = none;
  approved_at = none;
}

abbrev pub sample_plant : PlantDb
sample_plant = record {
  machines = loom ∷ [];
  downtimes = stop ∷ [];
  maintenance_jobs = repair ∷ [];
  maintenance_schedules = weekly ∷ [];
  employees = weaver ∷ [];
  attendances = [];
  payroll_periods = month ∷ [];
  payroll_entries = [];
}
