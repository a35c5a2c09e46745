-- ===== src/Tests/CatalogueRuns.antt =====
-- The properties of the services of master data on the sample.
use abyte_tex.Base.{◌≡◌, refl, none, some, List, [], ◌∷◌}
use abyte_tex.Schema.{MachineStatus}
use abyte_tex.Context.{TenantRequestContext}
use abyte_tex.Catalogue.Requests.{Request, run_all, own_rows, run_all-own_rows}
use abyte_tex.Tests.{list_prisma}
use abyte_tex.Tests.Samples.{request, sample}

-- Users of tenants 2 and 3 make a customer and stop a machine of tenant 1.
abbrev intruders : List (TenantRequestContext × Request)
intruders =
    (record request { tenant_id = some 2 }, Request.create_customer 9)
    ∷ (
      record request { tenant_id = some 3 },
      Request.update_machine 30
          (record { name = none; department_id = none; status = some MachineStatus.offline }),
    )
    ∷ []

run_all-own_rows_example : own_rows 1 (run_all intruders sample) ≡ own_rows 1 sample
run_all-own_rows_example =
    run_all-own_rows 1 intruders sample ((2, refl, refl), ((3, refl, refl), tt))
