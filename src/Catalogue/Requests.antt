-- ===== src/Catalogue/Requests.antt =====
-- The requests that write master data, in any order and from users of any tenants
-- (the controllers of the services hand them on).
use abyte_tex.Base.{
  ℕ, ◌≡◌, refl, sym, ◌∙◌, ap, Bool, true, false, Option, some, List, [], ◌∷◌, ◌==◌, not, filter,
  truthy, All, arith, Bool-cases, inl, inr,
}
use abyte_tex.Context.{TenantRequestContext}
use abyte_tex.Schema.{
  Factory, Warehouse, Department, Shift, Machine, Employee, Customer, Supplier, Material, Product,
  ProductCategory,
}
use abyte_tex.Database.{Prisma, Db}
use abyte_tex.Catalogue.Customers
use abyte_tex.Catalogue.Suppliers
use abyte_tex.Catalogue.Factories
use abyte_tex.Catalogue.Materials
use abyte_tex.Catalogue.Products
use abyte_tex.Catalogue.Sites
use abyte_tex.Catalogue.Staffing
use abyte_tex.Catalogue.Isolation.{Foreign, foreign}
use abyte_tex.Catalogue.Isolation.Parties
use abyte_tex.Catalogue.Isolation.Goods
use abyte_tex.Catalogue.Isolation.Places
use abyte_tex.Catalogue.Isolation.Staff

pub data Request : Type 0 where
  create_customer : ℕ → Request
  update_customer : ℕ → Option ℕ → Request
  create_supplier : ℕ → Request
  update_supplier : ℕ → Option ℕ → Request
  create_factory : Factories.CreateFactoryDto → Request
  update_factory : ℕ → Option ℕ → Request
  create_material : Materials.CreateMaterialDto → Request
  update_material : ℕ → Materials.UpdateMaterialDto → Request
  create_product : Products.CreateProductDto → Request
  update_product : ℕ → Products.UpdateProductDto → Request
  create_category : Products.CreateProductCategoryDto → Request
  create_department : ℕ → Sites.CreateSiteDto → Request
  update_department : ℕ → ℕ → Option ℕ → Request
  create_shift : ℕ → Sites.CreateShiftDto → Request
  update_shift : ℕ → ℕ → Option ℕ → Option ℕ → Request
  create_warehouse : ℕ → Sites.CreateSiteDto → Request
  update_warehouse : ℕ → ℕ → Option ℕ → Request
  add_location : ℕ → ℕ → ℕ → Request
  create_machine : ℕ → Staffing.CreateMachineDto → Request
  update_machine : ℕ → Staffing.UpdateMachineDto → Request
  create_employee : ℕ → Staffing.CreateEmployeeDto → Request
  update_employee : ℕ → Staffing.UpdateEmployeeDto → Request

-- What the database is after a request, which may have thrown.
module _ ⦃P : Prisma⦄ where
  unfoldable pub run : TenantRequestContext → Request → Db → Db
  run ctx (Request.create_customer name) db = (Customers.create_customer ctx name db).1
  run ctx (Request.update_customer id name) db = (Customers.update_customer ctx id name db).1
  run ctx (Request.create_supplier name) db = (Suppliers.create_supplier ctx name db).1
  run ctx (Request.update_supplier id name) db = (Suppliers.update_supplier ctx id name db).1
  run ctx (Request.create_factory dto) db = (Factories.create_factory ctx dto db).1
  run ctx (Request.update_factory id name) db = (Factories.update_factory ctx id name db).1
  run ctx (Request.create_material dto) db = (Materials.create_material ctx dto db).1
  run ctx (Request.update_material id dto) db = (Materials.update_material ctx id dto db).1
  run ctx (Request.create_product dto) db = (Products.create_product ctx dto db).1
  run ctx (Request.update_product id dto) db = (Products.update_product ctx id dto db).1
  run ctx (Request.create_category dto) db = (Products.create_category ctx dto db).1
  run ctx (Request.create_department factory_id dto) db =
      (Sites.create_department ctx factory_id dto db).1
  run ctx (Request.update_department factory_id id name) db =
      (Sites.update_department ctx factory_id id name db).1
  run ctx (Request.create_shift factory_id dto) db = (Sites.create_shift ctx factory_id dto db).1
  run ctx (Request.update_shift factory_id id name start_time) db =
      (Sites.update_shift ctx factory_id id name start_time db).1
  run ctx (Request.create_warehouse factory_id dto) db =
      (Sites.create_warehouse ctx factory_id dto db).1
  run ctx (Request.update_warehouse factory_id id name) db =
      (Sites.update_warehouse ctx factory_id id name db).1
  run ctx (Request.add_location factory_id id code) db =
      (Sites.add_location ctx factory_id id code db).1
  run ctx (Request.create_machine factory_id dto) db =
      (Staffing.create_machine ctx factory_id dto db).1
  run ctx (Request.update_machine id dto) db = (Staffing.update_machine ctx id dto db).1
  run ctx (Request.create_employee factory_id dto) db =
      (Staffing.create_employee ctx factory_id dto db).1
  run ctx (Request.update_employee id dto) db = (Staffing.update_employee ctx id dto db).1

  unfoldable pub run_all : List (TenantRequestContext × Request) → Db → Db
  run_all [] db = db
  run_all ((ctx, request) ∷ steps) db = run_all steps (run ctx request db)

-- The rows of one tenant.
abbrev pub own_rows : ℕ → Db → Foreign
own_rows t db = record {
  factories = filter (λ r. r.tenant_id == t) db.factories;
  warehouses = filter (λ r. r.tenant_id == t) db.warehouses;
  departments = filter (λ r. r.tenant_id == t) db.site.departments;
  shifts = filter (λ r. r.tenant_id == t) db.site.shifts;
  machines = filter (λ r. r.tenant_id == t) db.plant.machines;
  employees = filter (λ r. r.tenant_id == t) db.plant.employees;
  customers = filter (λ r. r.tenant_id == t) db.customers;
  suppliers = filter (λ r. r.tenant_id == t) db.suppliers;
  materials = filter (λ r. r.tenant_id == t) db.materials;
  products = filter (λ r. r.tenant_id == t) db.products;
  product_categories = filter (λ r. r.tenant_id == t) db.site.product_categories;
}

-- The rows of one tenant among those of several.
abbrev restrict : ℕ → Foreign → Foreign
restrict t f = record {
  factories = filter (λ r. r.tenant_id == t) f.factories;
  warehouses = filter (λ r. r.tenant_id == t) f.warehouses;
  departments = filter (λ r. r.tenant_id == t) f.departments;
  shifts = filter (λ r. r.tenant_id == t) f.shifts;
  machines = filter (λ r. r.tenant_id == t) f.machines;
  employees = filter (λ r. r.tenant_id == t) f.employees;
  customers = filter (λ r. r.tenant_id == t) f.customers;
  suppliers = filter (λ r. r.tenant_id == t) f.suppliers;
  materials = filter (λ r. r.tenant_id == t) f.materials;
  products = filter (λ r. r.tenant_id == t) f.products;
  product_categories = filter (λ r. r.tenant_id == t) f.product_categories;
}

filter_within :
    {R : Type 0} (p q : R → Bool) (l : List R)
    → ((r : R) → p r ≡ true → q r ≡ true)
    → filter p (filter q l) ≡ filter p l
filter_within p q [] h = refl
filter_within p q (x ∷ l) h = elim (Bool-cases (q x)) [
  | inl e ↦ rw e (ground (arith, filter_within p q l h))
  | inr e ↦ rw e (ground (arith, h x, filter_within p q l h))
]

own_rows_lem : (t u : ℕ) (db : Db) → (u == t) ≡ false → restrict t (foreign u db) ≡ own_rows t db
own_rows_lem t u db other =
    rw
      (
        of (λ (r : Factory). r.tenant_id) db.factories,
        of (λ (r : Warehouse). r.tenant_id) db.warehouses,
        of (λ (r : Department). r.tenant_id) db.site.departments,
        of (λ (r : Shift). r.tenant_id) db.site.shifts,
        of (λ (r : Machine). r.tenant_id) db.plant.machines,
        of (λ (r : Employee). r.tenant_id) db.plant.employees,
        of (λ (r : Customer). r.tenant_id) db.customers,
        of (λ (r : Supplier). r.tenant_id) db.suppliers,
        of (λ (r : Material). r.tenant_id) db.materials,
        of (λ (r : Product). r.tenant_id) db.products,
        of (λ (r : ProductCategory). r.tenant_id) db.site.product_categories,
      )
      refl
  where
    of :
        {R : Type 0} (tenant : R → ℕ) (l : List R)
        → filter (λ r. tenant r == t) (filter (λ r. not (tenant r == u)) l)
          ≡ filter (λ r. tenant r == t) l
    of tenant l =
        filter_within (λ r. tenant r == t) (λ r. not (tenant r == u)) l
          (λ r e. ground (arith, other))

module _ ⦃P : Prisma⦄ (t : ℕ) where
  run-foreign :
      (ctx : TenantRequestContext) (request : Request) (db : Db) (u : ℕ)
      → truthy ctx.tenant_id ≡ some u
      → foreign u (run ctx request db) ≡ foreign u db
  unfolding run
  run-foreign ctx (Request.create_customer name) db u own =
      (Parties.create_customer-IsIsolated u ctx own name).holds db
  run-foreign ctx (Request.update_customer id name) db u own =
      (Parties.update_customer-IsIsolated u ctx own id name).holds db
  run-foreign ctx (Request.create_supplier name) db u own =
      (Parties.create_supplier-IsIsolated u ctx own name).holds db
  run-foreign ctx (Request.update_supplier id name) db u own =
      (Parties.update_supplier-IsIsolated u ctx own id name).holds db
  run-foreign ctx (Request.create_factory dto) db u own =
      (Parties.create_factory-IsIsolated u ctx own dto).holds db
  run-foreign ctx (Request.update_factory id name) db u own =
      (Parties.update_factory-IsIsolated u ctx own id name).holds db
  run-foreign ctx (Request.create_material dto) db u own =
      (Goods.create_material-IsIsolated u ctx own dto).holds db
  run-foreign ctx (Request.update_material id dto) db u own =
      (Goods.update_material-IsIsolated u ctx own id dto).holds db
  run-foreign ctx (Request.create_product dto) db u own =
      (Goods.create_product-IsIsolated u ctx own dto).holds db
  run-foreign ctx (Request.update_product id dto) db u own =
      (Goods.update_product-IsIsolated u ctx own id dto).holds db
  run-foreign ctx (Request.create_category dto) db u own =
      (Goods.create_category-IsIsolated u ctx own dto).holds db
  run-foreign ctx (Request.create_department factory_id dto) db u own =
      (Places.create_department-IsIsolated u ctx own factory_id dto).holds db
  run-foreign ctx (Request.update_department factory_id id name) db u own =
      (Places.update_department-IsIsolated u ctx own factory_id id name).holds db
  run-foreign ctx (Request.create_shift factory_id dto) db u own =
      (Places.create_shift-IsIsolated u ctx own factory_id dto).holds db
  run-foreign ctx (Request.update_shift factory_id id name start_time) db u own =
      (Places.update_shift-IsIsolated u ctx own factory_id id name start_time).holds db
  run-foreign ctx (Request.create_warehouse factory_id dto) db u own =
      (Places.create_warehouse-IsIsolated u ctx own factory_id dto).holds db
  run-foreign ctx (Request.update_warehouse factory_id id name) db u own =
      (Places.update_warehouse-IsIsolated u ctx own factory_id id name).holds db
  run-foreign ctx (Request.add_location factory_id id code) db u own =
      (Places.add_location-IsIsolated u ctx own factory_id id code).holds db
  run-foreign ctx (Request.create_machine factory_id dto) db u own =
      (Staff.create_machine-IsIsolated u ctx own factory_id dto).holds db
  run-foreign ctx (Request.update_machine id dto) db u own =
      (Staff.update_machine-IsIsolated u ctx own id dto).holds db
  run-foreign ctx (Request.create_employee factory_id dto) db u own =
      (Staff.create_employee-IsIsolated u ctx own factory_id dto).holds db
  run-foreign ctx (Request.update_employee id dto) db u own =
      (Staff.update_employee-IsIsolated u ctx own id dto).holds db

  -- The request is by a user of another tenant.
  abbrev pub IsOther : TenantRequestContext × Request → Type 0
  IsOther s = (u : ℕ) × (truthy s.0.tenant_id ≡ some u) × ((u == t) ≡ false)

  -- Whatever requests on master data the users of other tenants make, in whatever order and whether
  -- they return or throw, the factories, warehouses, departments, shifts, machines, employees,
  -- customers, suppliers, materials, products and product categories of a tenant stay as they are.
  pub run_all-own_rows :
      (steps : List (TenantRequestContext × Request)) (db : Db)
      → All IsOther steps
      → own_rows t (run_all steps db) ≡ own_rows t db
  unfolding run_all
  run_all-own_rows [] db h = refl
  run_all-own_rows ((ctx, request) ∷ steps) db ((u, own, other), h) =
      run_all-own_rows steps (run ctx request db) h
      ∙ sym (own_rows_lem t u (run ctx request db) other)
      ∙ ap (restrict t) (run-foreign ctx request db u own)
      ∙ own_rows_lem t u db other
