-- ===== src/Catalogue/Suppliers.antt =====
-- Suppliers (apps/api/src/suppliers/suppliers.service.ts). Of what a form edits, the name.
use abyte_tex.Base.{ℕ, Option, ◌==◌, truthy}
use abyte_tex.Http.{conflict, not_found}
use abyte_tex.Context.{TenantRequestContext}
use abyte_tex.Schema
use abyte_tex.Schema.{Supplier}
use abyte_tex.Database.{
  Prisma, Action, ◌>>=◌, ◌>>◌, pure, or_throw, log, suppliers, find_first, create, update,
}
use abyte_tex.Maintenance.{or_keep}

module _ ⦃P : Prisma⦄ (ctx : TenantRequestContext) where
  unfoldable pub create_supplier : ℕ → Action Supplier
  create_supplier name = do
    or_throw (truthy ctx.tenant_id) conflict
    supplier ← create suppliers ctx (λ t id. record { id = id; tenant_id = t; name = name })
    log ctx Schema.AuditAction.create Schema.EntityType.supplier supplier.id
    pure supplier

  unfoldable pub get_by_id : ℕ → Action Supplier
  get_by_id id = do found ← find_first suppliers ctx (λ r. r.id == id); or_throw found not_found

  unfoldable pub update_supplier : ℕ → Option ℕ → Action Supplier
  update_supplier id name = do
    get_by_id id
    updated ← update suppliers ctx (λ r. r.id == id) (λ r. record r { name = or_keep name r.name })
    log ctx Schema.AuditAction.update Schema.EntityType.supplier id
    pure updated
