-- ===== src/Database/PlantTables.antt =====
-- The tables of machines, maintenance, employees and pay (prisma/schema.prisma).
use abyte_tex.Base.{true, ◌==◌}
use abyte_tex.Schema.{
  Machine, Downtime, MaintenanceJob, MaintenanceSchedule, Employee, Attendance, PayrollPeriod,
  PayrollEntry,
}
use abyte_tex.Database.Tables.{Table}

abbrev pub machines : Table Machine
machines = record {
  rows = λ db. db.plant.machines;
  put = λ l db. record db { plant = record db.plant { machines = l } };
  owned = λ t r. r.tenant_id == t;
}

abbrev pub downtimes : Table Downtime
downtimes = record {
  rows = λ db. db.plant.downtimes;
  put = λ l db. record db { plant = record db.plant { downtimes = l } };
  owned = λ t r. r.tenant_id == t;
}

abbrev pub maintenance_jobs : Table MaintenanceJob
maintenance_jobs = record {
  rows = λ db. db.plant.maintenance_jobs;
  put = λ l db. record db { plant = record db.plant { maintenance_jobs = l } };
  owned = λ t r. r.tenant_id == t;
}

abbrev pub maintenance_schedules : Table MaintenanceSchedule
maintenance_schedules = record {
  rows = λ db. db.plant.maintenance_schedules;
  put = λ l db. record db { plant = record db.plant { maintenance_schedules = l } };
  owned = λ t r. r.tenant_id == t;
}

abbrev pub employees : Table Employee
employees = record {
  rows = λ db. db.plant.employees;
  put = λ l db. record db { plant = record db.plant { employees = l } };
  owned = λ t r. r.tenant_id == t;
}

abbrev pub attendances : Table Attendance
attendances = record {
  rows = λ db. db.plant.attendances;
  put = λ l db. record db { plant = record db.plant { attendances = l } };
  owned = λ t r. r.tenant_id == t;
}

abbrev pub payroll_periods : Table PayrollPeriod
payroll_periods = record {
  rows = λ db. db.plant.payroll_periods;
  put = λ l db. record db { plant = record db.plant { payroll_periods = l } };
  owned = λ t r. r.tenant_id == t;
}

abbrev pub payroll_entries : Table PayrollEntry
payroll_entries = record {
  rows = λ db. db.plant.payroll_entries;
  put = λ l db. record db { plant = record db.plant { payroll_entries = l } };
  owned = λ t r. true;
}
