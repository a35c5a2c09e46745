-- ===== src/Catalogue/Isolation/Parties.antt =====
-- Each operation of the services of customers, suppliers and factories leaves
-- the rows of the other tenants alone.
use abyte_tex.Base.{ℕ, ◌≡◌, refl, ap, ◌==◌, Option, some, truthy, ==_refl}
use abyte_tex.Http.{conflict, not_found}
use abyte_tex.Context.{TenantRequestContext}
use abyte_tex.Schema.{Factory, Customer, Supplier, AuditAction, EntityType}
use abyte_tex.Maintenance.{or_keep}
use abyte_tex.Users.{is_some}
use abyte_tex.Catalogue.Customers
use abyte_tex.Catalogue.Suppliers
use abyte_tex.Catalogue.Factories
use abyte_tex.Catalogue.Isolation.{
  foreign, IsIsolated, IsIsolated-bind, or_throw-IsIsolated, reject_if-IsIsolated,
  find_first-IsIsolated, create_logged, update_logged,
}
use abyte_tex.Database.{Prisma, factories, customers, suppliers}

module _ ⦃P : Prisma⦄ (t : ℕ) (ctx : TenantRequestContext)
    (own : truthy ctx.tenant_id ≡ some t) where
  pub create_customer-IsIsolated : (name : ℕ) → IsIsolated t (Customers.create_customer ctx name)
  unfolding Customers.create_customer
  create_customer-IsIsolated name =
      IsIsolated-bind (or_throw-IsIsolated (truthy ctx.tenant_id) conflict) (λ _.
        create_logged t ctx own customers
          (λ l db e. ap (λ x. record (foreign t db) { customers = x }) e) AuditAction.create
          EntityType.customer (λ t id. record { id = id; tenant_id = t; name = name })
          (λ (r : Customer). r.id) (λ id. ==_refl t))

  pub update_customer-IsIsolated :
      (id : ℕ) (name : Option ℕ) → IsIsolated t (Customers.update_customer ctx id name)
  unfolding Customers.update_customer Customers.get_by_id
  update_customer-IsIsolated id name =
      IsIsolated-bind
        (IsIsolated-bind (find_first-IsIsolated t ctx own customers _)
          (λ r. or_throw-IsIsolated r not_found))
        (λ _.
          update_logged t ctx own customers
            (λ l db e. ap (λ x. record (foreign t db) { customers = x }) e) AuditAction.update
            EntityType.customer (λ r. r.id == id) (λ r. record r { name = or_keep name r.name }) id
            (λ r. refl))

  pub create_supplier-IsIsolated : (name : ℕ) → IsIsolated t (Suppliers.create_supplier ctx name)
  unfolding Suppliers.create_supplier
  create_supplier-IsIsolated name =
      IsIsolated-bind (or_throw-IsIsolated (truthy ctx.tenant_id) conflict) (λ _.
        create_logged t ctx own suppliers
          (λ l db e. ap (λ x. record (foreign t db) { suppliers = x }) e) AuditAction.create
          EntityType.supplier (λ t id. record { id = id; tenant_id = t; name = name })
          (λ (r : Supplier). r.id) (λ id. ==_refl t))

  pub update_supplier-IsIsolated :
      (id : ℕ) (name : Option ℕ) → IsIsolated t (Suppliers.update_supplier ctx id name)
  unfolding Suppliers.update_supplier Suppliers.get_by_id
  update_supplier-IsIsolated id name =
      IsIsolated-bind
        (IsIsolated-bind (find_first-IsIsolated t ctx own suppliers _)
          (λ r. or_throw-IsIsolated r not_found))
        (λ _.
          update_logged t ctx own suppliers
            (λ l db e. ap (λ x. record (foreign t db) { suppliers = x }) e) AuditAction.update
            EntityType.supplier (λ r. r.id == id) (λ r. record r { name = or_keep name r.name }) id
            (λ r. refl))

  pub create_factory-IsIsolated :
      (dto : Factories.CreateFactoryDto) → IsIsolated t (Factories.create_factory ctx dto)
  unfolding Factories.create_factory
  create_factory-IsIsolated dto =
      IsIsolated-bind (or_throw-IsIsolated (truthy ctx.tenant_id) conflict) (λ _.
        IsIsolated-bind (find_first-IsIsolated t ctx own factories _) (λ r.
          IsIsolated-bind (reject_if-IsIsolated (is_some r) conflict) (λ _.
            create_logged t ctx own factories
              (λ l db e. ap (λ x. record (foreign t db) { factories = x }) e) AuditAction.create
              EntityType.factory
              (λ t id. record { id = id; tenant_id = t; code = dto.code; name = dto.name })
              (λ (r : Factory). r.id) (λ id. ==_refl t))))

  pub update_factory-IsIsolated :
      (id : ℕ) (name : Option ℕ) → IsIsolated t (Factories.update_factory ctx id name)
  unfolding Factories.update_factory Factories.get_by_id
  update_factory-IsIsolated id name =
      IsIsolated-bind
        (IsIsolated-bind (find_first-IsIsolated t ctx own factories _)
          (λ r. or_throw-IsIsolated r not_found))
        (λ _.
          update_logged t ctx own factories
            (λ l db e. ap (λ x. record (foreign t db) { factories = x }) e) AuditAction.update
            EntityType.factory (λ f. f.id == id) (λ f. record f { name = or_keep name f.name }) id
            (λ r. refl))
