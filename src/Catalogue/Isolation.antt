-- ===== src/Catalogue/Isolation.antt =====
-- What the services of master data can do to the rows of another tenant.
pub mod Parties
pub mod Goods
pub mod Places
pub mod Staff
use abyte_tex.Base.{
  ℕ, ◌+◌, ◌≡◌, refl, sym, ◌∙◌, ap, subst, Bool, true, false, Option, none, some, List, [], ◌∷◌,
  ◌++◌, ◌==◌, ◌&&◌, not, filter, map, truthy, if◌then◌else◌, arith, Bool-cases, Option-cases, inl,
  inr, ==_refl, filter-append, filter-map,
}
use abyte_tex.Http.{Result, ok, err, Error}
use abyte_tex.Context.{TenantRequestContext}
use abyte_tex.Schema.{
  Factory, Warehouse, Department, Shift, Machine, Employee, Customer, Supplier, Material, Product,
  ProductCategory, AuditAction, EntityType,
}
use abyte_tex.Database.Raw
use abyte_tex.Database.{
  Prisma, Db, Table, Action, ◌>>=◌, ◌>>◌, pure, or_throw, reject_if, check, log, create, update,
  find_first,
}

-- The rows of the other tenants, in their order.
pub record Foreign : Type 0 where
  pub factories : List Factory
  pub warehouses : List Warehouse
  pub departments : List Department
  pub shifts : List Shift
  pub machines : List Machine
  pub employees : List Employee
  pub customers : List Customer
  pub suppliers : List Supplier
  pub materials : List Material
  pub products : List Product
  pub product_categories : List ProductCategory

abbrev pub foreign : ℕ → Db → Foreign
foreign t db = record {
  factories = filter (λ r. not (r.tenant_id == t)) db.factories;
  warehouses = filter (λ r. not (r.tenant_id == t)) db.warehouses;
  departments = filter (λ r. not (r.tenant_id == t)) db.site.departments;
  shifts = filter (λ r. not (r.tenant_id == t)) db.site.shifts;
  machines = filter (λ r. not (r.tenant_id == t)) db.plant.machines;
  employees = filter (λ r. not (r.tenant_id == t)) db.plant.employees;
  customers = filter (λ r. not (r.tenant_id == t)) db.customers;
  suppliers = filter (λ r. not (r.tenant_id == t)) db.suppliers;
  materials = filter (λ r. not (r.tenant_id == t)) db.materials;
  products = filter (λ r. not (r.tenant_id == t)) db.products;
  product_categories = filter (λ r. not (r.tenant_id == t)) db.site.product_categories;
}

-- An action leaves the rows of the other tenants as they are, whether it returns or throws.
pub record IsIsolated (t : ℕ) {A : Type 0} (m : Action A) : Type 0 where
  pub holds : (db : Db) → foreign t (m db).1 ≡ foreign t db

module _ {A B : Type 0} {t : ℕ} {m : Action A} {f : A → Action B} where
  pub IsIsolated-bind : IsIsolated t m → ((a : A) → IsIsolated t (f a)) → IsIsolated t (m >>= f)
  IsIsolated-bind h k = record { holds = λ db. go db (m db) (h.holds db) }
    where
      go :
          (db : Db) (r : Result A × Db)
          → foreign t r.1 ≡ foreign t db
          → foreign t (elim r.0 as (λ _. Result B × Db) [ ok a ↦ f a r.1 | err e ↦ (err e, r.1) ]).1
            ≡ foreign t db
      go db (ok a, d) e = (k a).holds d ∙ e
      go db (err x, d) e = e

module _ {A : Type 0} {t : ℕ} where
  pub pure-IsIsolated : (a : A) → IsIsolated t (pure a)
  pure-IsIsolated a = record { holds = λ db. refl }

  pub or_throw-IsIsolated : (o : Option A) (e : Error) → IsIsolated t (or_throw o e)
  or_throw-IsIsolated none e = record { holds = λ db. refl }
  or_throw-IsIsolated (some a) e = record { holds = λ db. refl }

  pub check-IsIsolated : (r : Result A) → IsIsolated t (check r)
  check-IsIsolated r = record { holds = λ db. refl }

pub reject_if-IsIsolated : {t : ℕ} (b : Bool) (e : Error) → IsIsolated t (reject_if b e)
reject_if-IsIsolated true e = record { holds = λ db. refl }
reject_if-IsIsolated false e = record { holds = λ db. refl }

module _ ⦃P : Prisma⦄ {R : Type 0} (table : Table R) (t : ℕ)
    (focus : (l : List R) (db : Db)
      → filter (λ r. not (table.owned t r)) l ≡ filter (λ r. not (table.owned t r)) (table.rows db)
      → foreign t (table.put l db) ≡ foreign t db)
    (ctx : TenantRequestContext) (own : truthy ctx.tenant_id ≡ some t) where
  pub create-IsIsolated :
      (row : ℕ → ℕ → R)
      → ((id : ℕ) → table.owned t (row t id) ≡ true)
      → IsIsolated t (create table ctx row)
  create-IsIsolated row mine = record {
    holds = λ db. rw own (
        focus _ (record db { generated = db.generated + 1 })
          (rw P.create_lem (
            filter-append (λ r. not (table.owned t r)) _ _
              (ground (arith, mine (P.cuid db.generated))))));
  }

  pub update-IsIsolated :
      (p : R → Bool) (f : R → R)
      → ((r : R) → table.owned t (f r) ≡ table.owned t r)
      → IsIsolated t (update table ctx p f)
  update-IsIsolated p f kept = record {
    holds = λ db.
        rw own (elim (Option-cases (P.find_first (λ r. table.owned t r && p r) (table.rows db))) [
          | inl e ↦ rw e refl
          | inr (r, e) ↦ rw e (
              focus _ db (
                rw P.update_lem (
                  filter-map (λ r. not (table.owned t r)) _ (table.rows db) (λ r o. ground arith)
                    (λ r. ground (arith, kept r)))))
        ]);
  }

module _ ⦃P : Prisma⦄ (t : ℕ) (ctx : TenantRequestContext)
    (own : truthy ctx.tenant_id ≡ some t) where
  pub find_first-IsIsolated :
      {R : Type 0} (table : Table R) (p : R → Bool) → IsIsolated t (find_first table ctx p)
  find_first-IsIsolated table p = record { holds = λ db. rw own refl }

  pub raw-IsIsolated :
      {R : Type 0} (table : Table R) (p : R → Bool) → IsIsolated t (Raw.find_first table p)
  raw-IsIsolated table p = record { holds = λ db. refl }

  pub log-IsIsolated : (a : AuditAction) (e : EntityType) (id : ℕ) → IsIsolated t (log ctx a e id)
  log-IsIsolated a e id = record { holds = λ db. refl }

  -- The ends that the handlers share: a write, its entry in the audit log, and the row.
  module _ {R : Type 0} (table : Table R)
      (focus : (l : List R) (db : Db)
        → filter (λ r. not (table.owned t r)) l
          ≡ filter (λ r. not (table.owned t r)) (table.rows db)
        → foreign t (table.put l db) ≡ foreign t db)
      (a : AuditAction) (e : EntityType) where
    pub create_logged :
        (row : ℕ → ℕ → R) (id_of : R → ℕ)
        → ((id : ℕ) → table.owned t (row t id) ≡ true)
        → IsIsolated t (create table ctx row >>= λ r. log ctx a e (id_of r) >>= λ _. pure r)
    create_logged row id_of mine =
        IsIsolated-bind (create-IsIsolated table t focus ctx own row mine)
          (λ r. IsIsolated-bind (log-IsIsolated a e (id_of r)) (λ _. pure-IsIsolated r))

    pub update_logged :
        (p : R → Bool) (f : R → R) (id : ℕ)
        → ((r : R) → table.owned t (f r) ≡ table.owned t r)
        → IsIsolated t (update table ctx p f >>= λ r. log ctx a e id >>= λ _. pure r)
    update_logged p f id kept =
        IsIsolated-bind (update-IsIsolated table t focus ctx own p f kept)
          (λ r. IsIsolated-bind (log-IsIsolated a e id) (λ _. pure-IsIsolated r))
