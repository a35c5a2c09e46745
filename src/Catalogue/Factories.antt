-- ===== src/Catalogue/Factories.antt =====
-- Factories (apps/api/src/factories/factories.service.ts). Of what a form edits, the name.
use abyte_tex.Base.{ℕ, Option, ◌==◌, truthy}
use abyte_tex.Http.{conflict, not_found}
use abyte_tex.Context.{TenantRequestContext}
use abyte_tex.Schema
use abyte_tex.Schema.{Factory}
use abyte_tex.Database.{
  Prisma, Action, ◌>>=◌, ◌>>◌, pure, or_throw, reject_if, log, factories, find_first, create,
  update,
}
use abyte_tex.Maintenance.{or_keep}
use abyte_tex.Users.{is_some}

pub record CreateFactoryDto : Type 0 where
  pub code : ℕ
  pub name : ℕ

module _ ⦃P : Prisma⦄ (ctx : TenantRequestContext) where
  unfoldable pub create_factory : CreateFactoryDto → Action Factory
  create_factory dto = do
    or_throw (truthy ctx.tenant_id) conflict
    existing ← find_first factories ctx (λ f. f.code == dto.code)
    reject_if (is_some existing) conflict
    factory ←
        create factories ctx
          (λ t id. record { id = id; tenant_id = t; code = dto.code; name = dto.name })
    log ctx Schema.AuditAction.create Schema.EntityType.factory factory.id
    pure factory

  unfoldable pub get_by_id : ℕ → Action Factory
  get_by_id id = do found ← find_first factories ctx (λ f. f.id == id); or_throw found not_found

  unfoldable pub update_factory : ℕ → Option ℕ → Action Factory
  update_factory id name = do
    get_by_id id
    updated ← update factories ctx (λ f. f.id == id) (λ f. record f { name = or_keep name f.name })
    log ctx Schema.AuditAction.update Schema.EntityType.factory id
    pure updated
