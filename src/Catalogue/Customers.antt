-- ===== src/Catalogue/Customers.antt =====
-- Customers (apps/api/src/customers/customers.service.ts). Of what a form edits, the name.
use abyte_tex.Base.{ℕ, Option, ◌==◌, truthy}
use abyte_tex.Http.{conflict, not_found}
use abyte_tex.Context.{TenantRequestContext}
use abyte_tex.Schema
use abyte_tex.Schema.{Customer}
use abyte_tex.Database.{
  Prisma, Action, ◌>>=◌, ◌>>◌, pure, or_throw, log, customers, find_first, create, update,
}
use abyte_tex.Maintenance.{or_keep}

module _ ⦃P : Prisma⦄ (ctx : TenantRequestContext) where
  unfoldable pub create_customer : ℕ → Action Customer
  create_customer name = do
    or_throw (truthy ctx.tenant_id) conflict
    customer ← create customers ctx (λ t id. record { id = id; tenant_id = t; name = name })
    log ctx Schema.AuditAction.create Schema.EntityType.customer customer.id
    pure customer

  unfoldable pub get_by_id : ℕ → Action Customer
  get_by_id id = do found ← find_first customers ctx (λ r. r.id == id); or_throw found not_found

  unfoldable pub update_customer : ℕ → Option ℕ → Action Customer
  update_customer id name = do
    get_by_id id
    updated ← update customers ctx (λ r. r.id == id) (λ r. record r { name = or_keep name r.name })
    log ctx Schema.AuditAction.update Schema.EntityType.customer id
    pure updated
