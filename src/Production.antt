-- ===== src/Production.antt =====
-- Production orders (apps/api/src/production/production.service.ts); its children model batches and
-- material consumption.
pub mod Batches
pub mod OrderStatus
use abyte_tex.Base.{
  ℕ, ◌+◌, Bool, true, false, Option, none, some, List, [], ◌∷◌, ◌&&◌, ◌||◌, ◌==◌, leb,
  if◌then◌else◌, truthy, length,
}
use abyte_tex.Http.{Error, Result, ok, err, bad_request, conflict, not_found}
use abyte_tex.Context.{TenantRequestContext, assert_factory_access}
use abyte_tex.Workflow.{assert_valid_transition}
use abyte_tex.Schema
use abyte_tex.Schema.{
  ProductionOrder, ProductionBatch, ProductionOrderStatus, production_order_status,
  SalesOrderStatus, same_sales_order_status, Product, Factory,
}
use abyte_tex.Database.{
  Prisma, Db, production_orders, production_batches, sales_orders, factories, products, Action,
  ◌>>=◌, ◌>>◌, pure, throw, check, or_throw, reject_if, log, find_first, find_many, count, create,
  update, update_many,
}

-- `PRODUCTION_ORDER_TRANSITIONS`
unfoldable pub order_transitions : ProductionOrderStatus → List ProductionOrderStatus
order_transitions ProductionOrderStatus.planned =
    ProductionOrderStatus.released ∷ ProductionOrderStatus.cancelled ∷ []
order_transitions ProductionOrderStatus.released =
    ProductionOrderStatus.in_progress ∷ ProductionOrderStatus.cancelled ∷ []
order_transitions ProductionOrderStatus.in_progress =
    ProductionOrderStatus.paused ∷ ProductionOrderStatus.completed ∷ ProductionOrderStatus.cancelled
    ∷ []
order_transitions ProductionOrderStatus.paused =
    ProductionOrderStatus.in_progress ∷ ProductionOrderStatus.cancelled ∷ []
order_transitions ProductionOrderStatus.completed = []
order_transitions ProductionOrderStatus.cancelled = []

pub record CreateProductionOrderDto : Type 0 where
  pub factory_id : ℕ
  pub sales_order_id : Option ℕ
  pub product_id : ℕ
  pub quantity : ℕ
  pub unit : ℕ

-- `existing.batches.reduce((sum, b) => sum + Number(b.outputQuantity), 0)`
unfoldable pub total_output : List ProductionBatch → ℕ
total_output [] = 0
total_output (b ∷ bs) = b.output_quantity + total_output bs

-- The refusal to complete an order without production evidence.
unfoldable pub lacks_output : ProductionOrderStatus → List ProductionBatch → Bool
lacks_output ProductionOrderStatus.completed batches =
    (length batches == 0) || leb (total_output batches) 0
lacks_output _ batches = false

-- `data`: the new status, and the dates that come with it.
unfoldable pub move_order : ProductionOrderStatus → ℕ → ProductionOrder → ProductionOrder
move_order ProductionOrderStatus.in_progress now o = record o {
  status = ProductionOrderStatus.in_progress;
  actual_start_date = elim o.actual_start_date [ none ↦ some now | some d ↦ some d ];
}
move_order ProductionOrderStatus.completed now o = record o {
  status = ProductionOrderStatus.completed;
  actual_end_date = some now;
}
move_order next now o = record o { status = next }

-- The status that the linked sales order must have, and the one that it is given.
unfoldable pub mirrored : ProductionOrderStatus → Option (SalesOrderStatus × SalesOrderStatus)
mirrored ProductionOrderStatus.in_progress =
    some (SalesOrderStatus.production_planned, SalesOrderStatus.in_production)
mirrored ProductionOrderStatus.completed =
    some (SalesOrderStatus.in_production, SalesOrderStatus.quality)
mirrored _ = none

module _ ⦃P : Prisma⦄ (ctx : TenantRequestContext) where
  -- `salesOrder.updateMany({ where: { id, status }, data: { status } }).catch(() => undefined)`
  unfoldable pub advance_sales_order : ℕ → SalesOrderStatus → SalesOrderStatus → Action (Unit {0})
  advance_sales_order id before after =
      update_many sales_orders ctx (λ o. (o.id == id) && same_sales_order_status o.status before)
        (λ o. record o { status = after })

  unfoldable pub create_order : CreateProductionOrderDto → Action ProductionOrder
  unfolding advance_sales_order
  create_order dto = do
    or_throw (truthy ctx.tenant_id) conflict
    check (assert_factory_access ctx.factory_ids (some dto.factory_id))
    factory ← find_first factories ctx (λ f. f.id == dto.factory_id)
    or_throw factory not_found
    product ← find_first products ctx (λ p. p.id == dto.product_id)
    or_throw product not_found
    n ← count production_orders ctx (λ o. true)
    order ← create production_orders ctx (λ t i. record {
      id = i;
      tenant_id = t;
      factory_id = dto.factory_id;
      order_number = n + 1;
      sales_order_id = dto.sales_order_id;
      product_id = dto.product_id;
      quantity = dto.quantity;
      unit = dto.unit;
      actual_start_date = none;
      actual_end_date = none;
      status = ProductionOrderStatus.planned;
    })
    log ctx Schema.AuditAction.create Schema.EntityType.production_order order.id
    elim (truthy dto.sales_order_id) [
      | none ↦ pure tt
      | some s ↦
          advance_sales_order s SalesOrderStatus.confirmed SalesOrderStatus.production_planned
    ]
    pure order

  unfoldable pub get_order_by_id : ℕ → Action ProductionOrder
  get_order_by_id id = do
    found ← find_first production_orders ctx (λ o. o.id == id)
    order ← or_throw found not_found
    check (assert_factory_access ctx.factory_ids (some order.factory_id))
    pure order

  -- The update of the linked sales order at the end of `updateOrderStatus`.
  unfoldable pub mirror_status : Option ℕ → ProductionOrderStatus → Action (Unit {0})
  unfolding advance_sales_order
  mirror_status sales_order_id next = elim (truthy sales_order_id) [
    | none ↦ pure tt
    | some s ↦ elim (mirrored next) [
      | none ↦ pure tt
      | some (before, after) ↦ advance_sales_order s before after
    ]
  ]

  unfoldable pub update_order_status : ℕ → ProductionOrderStatus → Action ProductionOrder
  update_order_status id next = do
    existing ← get_order_by_id id
    check (assert_valid_transition order_transitions existing.status next)
    batches ← find_many production_batches ctx (λ b. b.production_order_id == id)
    reject_if (lacks_output next batches) bad_request
    updated ← update production_orders ctx (λ o. o.id == id) (move_order next ctx.now)
    log ctx Schema.AuditAction.update Schema.EntityType.production_order id
    mirror_status existing.sales_order_id next
    pure updated
