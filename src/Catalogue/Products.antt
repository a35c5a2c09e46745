-- ===== src/Catalogue/Products.antt =====
-- Products and their categories (apps/api/src/products/products.service.ts). Of what a form edits,
-- the category and the unit.
use abyte_tex.Base.{ℕ, Bool, false, Option, none, some, ◌==◌, ◌==?◌, ◌&&◌, truthy}
use abyte_tex.Http.{conflict, not_found, unique_violation}
use abyte_tex.Context.{TenantRequestContext}
use abyte_tex.Schema
use abyte_tex.Schema.{Product, ProductCategory}
use abyte_tex.Database.{
  Prisma, Action, ◌>>=◌, ◌>>◌, pure, or_throw, reject_if, log, products, product_categories,
  find_first, create, update,
}
use abyte_tex.Database.Raw
use abyte_tex.Maintenance.{or_keep, or_keep_null}
use abyte_tex.Users.{is_some}

pub record CreateProductDto : Type 0 where
  pub sku : ℕ
  pub category_id : Option ℕ
  pub unit : ℕ

pub record UpdateProductDto : Type 0 where
  pub category_id : Option ℕ
  pub unit : Option ℕ

pub record CreateProductCategoryDto : Type 0 where
  pub name : ℕ
  pub parent_id : Option ℕ

-- `@@unique([tenantId, name, parentId])`, for which a category without a parent is like no other.
abbrev pub same_category : CreateProductCategoryDto → Option ℕ → ProductCategory → Bool
same_category dto tenant_id r = elim dto.parent_id [
  | none ↦ false
  | some parent ↦
      (some r.tenant_id ==? tenant_id) && (r.name == dto.name) && (r.parent_id ==? some parent)
]

module _ ⦃P : Prisma⦄ (ctx : TenantRequestContext) where
  -- The category that a request names is there; it may name none.
  unfoldable pub named_category : Option ℕ → Action (Unit {0})
  named_category none = pure tt
  named_category (some id) = do
    found ← find_first product_categories ctx (λ r. r.id == id)
    or_throw found not_found
    pure tt

  unfoldable pub check_category : Option ℕ → Action (Unit {0})
  check_category category_id = named_category (truthy category_id)

  unfoldable pub create_product : CreateProductDto → Action Product
  create_product dto = do
    or_throw (truthy ctx.tenant_id) conflict
    check_category dto.category_id
    existing ← find_first products ctx (λ p. p.sku == dto.sku)
    reject_if (is_some existing) conflict
    product ← create products ctx (λ t id. record {
      id = id;
      tenant_id = t;
      sku = dto.sku;
      category_id = dto.category_id;
      unit = dto.unit;
    })
    log ctx Schema.AuditAction.create Schema.EntityType.product product.id
    pure product

  unfoldable pub get_by_id : ℕ → Action Product
  get_by_id id = do found ← find_first products ctx (λ p. p.id == id); or_throw found not_found

  unfoldable pub update_product : ℕ → UpdateProductDto → Action Product
  update_product id dto = do
    get_by_id id
    check_category dto.category_id
    updated ←
        update products ctx (λ p. p.id == id)
          (λ p. record p {
            category_id = or_keep_null dto.category_id p.category_id;
            unit = or_keep dto.unit p.unit;
          })
    log ctx Schema.AuditAction.update Schema.EntityType.product id
    pure updated

  unfoldable pub create_category : CreateProductCategoryDto → Action ProductCategory
  create_category dto = do
    or_throw (truthy ctx.tenant_id) conflict
    check_category dto.parent_id
    taken ← Raw.find_first product_categories (same_category dto ctx.tenant_id)
    reject_if (is_some taken) unique_violation
    create product_categories ctx
        (λ t id. record { id = id; tenant_id = t; name = dto.name; parent_id = dto.parent_id })
