-- ===== src/Catalogue/Materials.antt =====
-- Materials (apps/api/src/materials/materials.service.ts). Of what a form edits, the unit and the
-- reorder level.
use abyte_tex.Base.{ℕ, Option, ◌==◌, truthy}
use abyte_tex.Http.{conflict, not_found}
use abyte_tex.Context.{TenantRequestContext}
use abyte_tex.Schema
use abyte_tex.Schema.{Material}
use abyte_tex.Database.{
  Prisma, Action, ◌>>=◌, ◌>>◌, pure, or_throw, reject_if, log, materials, find_first, create,
  update,
}
use abyte_tex.Maintenance.{or_keep, or_keep_null}
use abyte_tex.Users.{is_some}

pub record CreateMaterialDto : Type 0 where
  pub code : ℕ
  pub unit : ℕ
  pub reorder_level : Option ℕ

pub record UpdateMaterialDto : Type 0 where
  pub unit : Option ℕ
  pub reorder_level : Option ℕ

module _ ⦃P : Prisma⦄ (ctx : TenantRequestContext) where
  unfoldable pub create_material : CreateMaterialDto → Action Material
  create_material dto = do
    or_throw (truthy ctx.tenant_id) conflict
    existing ← find_first materials ctx (λ m. m.code == dto.code)
    reject_if (is_some existing) conflict
    material ← create materials ctx (λ t id. record {
      id = id;
      tenant_id = t;
      code = dto.code;
      unit = dto.unit;
      reorder_level = dto.reorder_level;
    })
    log ctx Schema.AuditAction.create Schema.EntityType.material material.id
    pure material

  unfoldable pub get_by_id : ℕ → Action Material
  get_by_id id = do found ← find_first materials ctx (λ m. m.id == id); or_throw found not_found

  unfoldable pub update_material : ℕ → UpdateMaterialDto → Action Material
  update_material id dto = do
    get_by_id id
    updated ←
        update materials ctx (λ m. m.id == id)
          (λ m. record m {
            unit = or_keep dto.unit m.unit;
            reorder_level = or_keep_null dto.reorder_level m.reorder_level;
          })
    log ctx Schema.AuditAction.update Schema.EntityType.material id
    pure updated
