-- ===== src/Catalogue/Isolation/Goods.antt =====
-- Each operation of the services of materials and products leaves
-- the rows of the other tenants alone.
use abyte_tex.Base.{ℕ, ◌≡◌, refl, ap, ◌==◌, Option, none, some, truthy, ==_refl}
use abyte_tex.Http.{conflict, not_found, unique_violation}
use abyte_tex.Context.{TenantRequestContext}
use abyte_tex.Schema.{Material, Product, AuditAction, EntityType}
use abyte_tex.Maintenance.{or_keep, or_keep_null}
use abyte_tex.Users.{is_some}
use abyte_tex.Catalogue.Materials
use abyte_tex.Catalogue.Products
use abyte_tex.Catalogue.Isolation.{
  foreign, IsIsolated, IsIsolated-bind, pure-IsIsolated, or_throw-IsIsolated, reject_if-IsIsolated,
  create-IsIsolated, find_first-IsIsolated, raw-IsIsolated, create_logged, update_logged,
}
use abyte_tex.Database.{Prisma, materials, products, product_categories}

module _ ⦃P : Prisma⦄ (t : ℕ) (ctx : TenantRequestContext)
    (own : truthy ctx.tenant_id ≡ some t) where
  pub create_material-IsIsolated :
      (dto : Materials.CreateMaterialDto) → IsIsolated t (Materials.create_material ctx dto)
  unfolding Materials.create_material
  create_material-IsIsolated dto =
      IsIsolated-bind (or_throw-IsIsolated (truthy ctx.tenant_id) conflict) (λ _.
        IsIsolated-bind (find_first-IsIsolated t ctx own materials _) (λ r.
          IsIsolated-bind (reject_if-IsIsolated (is_some r) conflict) (λ _.
            create_logged t ctx own materials
              (λ l db e. ap (λ x. record (foreign t db) { materials = x }) e) AuditAction.create
              EntityType.material
              (λ t id. record {
                id = id;
                tenant_id = t;
                code = dto.code;
                unit = dto.unit;
                reorder_level = dto.reorder_level;
              })
              (λ (r : Material). r.id) (λ id. ==_refl t))))

  pub update_material-IsIsolated :
      (id : ℕ) (dto : Materials.UpdateMaterialDto)
      → IsIsolated t (Materials.update_material ctx id dto)
  unfolding Materials.update_material Materials.get_by_id
  update_material-IsIsolated id dto =
      IsIsolated-bind
        (IsIsolated-bind (find_first-IsIsolated t ctx own materials _)
          (λ r. or_throw-IsIsolated r not_found))
        (λ _.
          update_logged t ctx own materials
            (λ l db e. ap (λ x. record (foreign t db) { materials = x }) e) AuditAction.update
            EntityType.material (λ m. m.id == id)
            (λ m. record m {
              unit = or_keep dto.unit m.unit;
              reorder_level = or_keep_null dto.reorder_level m.reorder_level;
            })
            id (λ r. refl))

  named_category-IsIsolated :
      (category_id : Option ℕ) → IsIsolated t (Products.named_category ctx category_id)
  unfolding Products.named_category
  named_category-IsIsolated none = pure-IsIsolated tt
  named_category-IsIsolated (some id) =
      IsIsolated-bind (find_first-IsIsolated t ctx own product_categories _)
        (λ r. IsIsolated-bind (or_throw-IsIsolated r not_found) (λ _. pure-IsIsolated tt))

  pub check_category-IsIsolated :
      (category_id : Option ℕ) → IsIsolated t (Products.check_category ctx category_id)
  unfolding Products.check_category
  check_category-IsIsolated category_id = named_category-IsIsolated (truthy category_id)

  pub create_product-IsIsolated :
      (dto : Products.CreateProductDto) → IsIsolated t (Products.create_product ctx dto)
  unfolding Products.create_product
  create_product-IsIsolated dto =
      IsIsolated-bind (or_throw-IsIsolated (truthy ctx.tenant_id) conflict) (λ _.
        IsIsolated-bind (check_category-IsIsolated dto.category_id) (λ _.
          IsIsolated-bind (find_first-IsIsolated t ctx own products _) (λ r.
            IsIsolated-bind (reject_if-IsIsolated (is_some r) conflict) (λ _.
              create_logged t ctx own products
                (λ l db e. ap (λ x. record (foreign t db) { products = x }) e) AuditAction.create
                EntityType.product
                (λ t id. record {
                  id = id;
                  tenant_id = t;
                  sku = dto.sku;
                  category_id = dto.category_id;
                  unit = dto.unit;
                })
                (λ (r : Product). r.id) (λ id. ==_refl t)))))

  pub update_product-IsIsolated :
      (id : ℕ) (dto : Products.UpdateProductDto) → IsIsolated t (Products.update_product ctx id dto)
  unfolding Products.update_product Products.get_by_id
  update_product-IsIsolated id dto =
      IsIsolated-bind
        (IsIsolated-bind (find_first-IsIsolated t ctx own products _)
          (λ r. or_throw-IsIsolated r not_found))
        (λ _. IsIsolated-bind (check_category-IsIsolated dto.category_id) (λ _.
          update_logged t ctx own products
            (λ l db e. ap (λ x. record (foreign t db) { products = x }) e) AuditAction.update
            EntityType.product (λ p. p.id == id)
            (λ p. record p {
              category_id = or_keep_null dto.category_id p.category_id;
              unit = or_keep dto.unit p.unit;
            })
            id (λ r. refl)))

  pub create_category-IsIsolated :
      (dto : Products.CreateProductCategoryDto) → IsIsolated t (Products.create_category ctx dto)
  unfolding Products.create_category
  create_category-IsIsolated dto =
      IsIsolated-bind (or_throw-IsIsolated (truthy ctx.tenant_id) conflict) (λ _.
        IsIsolated-bind (check_category-IsIsolated dto.parent_id) (λ _.
          IsIsolated-bind
            (raw-IsIsolated t ctx own product_categories (Products.same_category dto ctx.tenant_id))
            (λ r. IsIsolated-bind (reject_if-IsIsolated (is_some r) unique_violation) (λ _.
              create-IsIsolated product_categories t
                (λ l db e. ap (λ x. record (foreign t db) { product_categories = x }) e) ctx own
                (λ t id. record {
                  id = id;
                  tenant_id = t;
                  name = dto.name;
                  parent_id = dto.parent_id;
                })
                (λ id. ==_refl t)))))
