-- ===== src/Production/Batches.antt =====
-- Production batches and material consumption
-- (apps/api/src/production/production.service.ts).
pub mod Output
pub mod Consumption
use abyte_tex.Base.{
  ℕ, ◌+◌, Bool, true, false, Option, none, some, List, [], ◌∷◌, ◌&&◌, ◌==◌, ltb, leb, if◌then◌else◌,
  truthy, ℤ, pos, neg,
}
use abyte_tex.Http.{Error, Result, ok, err, bad_request, conflict, not_found}
use abyte_tex.Context.{TenantRequestContext, assert_factory_access}
use abyte_tex.Schema
use abyte_tex.Schema.{
  ProductionOrder, ProductionBatch, ProductionOrderStatus, BatchStatus, MaterialConsumption,
  Product,
}
use abyte_tex.Database.{
  Prisma, Db, production_batches, material_consumptions, materials, products, Action, ◌>>=◌, ◌>>◌,
  pure, throw, check, or_throw, reject_if, transaction, log, find_first, count, create, update,
}
use abyte_tex.Inventory.{RecordMovementInput, record_movement_in}
use abyte_tex.Production.{get_order_by_id}

pub record RecordBatchOutputDto : Type 0 where
  pub output_quantity : ℕ
  pub wastage : Option ℕ
  pub rework : Option ℕ
  pub rejection : Option ℕ
  pub end_time : Option ℕ
  pub output_warehouse_id : Option ℕ

pub record RecordMaterialConsumptionDto : Type 0 where
  pub production_order_id : ℕ
  pub production_batch_id : Option ℕ
  pub material_id : ℕ
  pub warehouse_id : ℕ
  pub quantity : ℕ
  pub unit : ℕ

pub record CreateProductionBatchDto : Type 0 where
  pub production_order_id : ℕ
  pub input_quantity : ℕ
  pub start_time : Option ℕ

-- `x ?? y`
abbrev pub or_else : Option ℕ → ℕ → ℕ
or_else none y = y
or_else (some x) y = x

-- The status after output is recorded: a hold stays.
unfoldable pub next_status : BatchStatus → BatchStatus
next_status BatchStatus.hold = BatchStatus.hold
next_status _ = BatchStatus.completed

abbrev pub is_completed : BatchStatus → Bool
is_completed BatchStatus.completed = true
is_completed _ = false

abbrev pub is_closed : ProductionOrderStatus → Bool
is_closed ProductionOrderStatus.completed = true
is_closed ProductionOrderStatus.cancelled = true
is_closed _ = false

abbrev pub with_output : RecordBatchOutputDto → ℕ → ProductionBatch → ProductionBatch
with_output dto now b = record b {
  output_quantity = dto.output_quantity;
  wastage = or_else dto.wastage 0;
  rework = or_else dto.rework 0;
  rejection = or_else dto.rejection 0;
  end_time = some (or_else dto.end_time now);
  status = next_status b.status;
}

abbrev pub receipt_input : RecordBatchOutputDto → ProductionBatch → ℕ → ℕ → ℕ → RecordMovementInput
receipt_input dto batch warehouse_id unit id = record {
  warehouse_id = warehouse_id;
  location_id = none;
  product_id = some batch.product_id;
  material_id = none;
  batch_number = some batch.batch_number;
  type = Schema.StockMovementType.production_receipt;
  quantity = pos dto.output_quantity;
  unit = unit;
  reference_type = some Schema.ReferenceType.production_batch_ref;
  reference_id = some id;
}

abbrev pub consumption_input : RecordMaterialConsumptionDto → RecordMovementInput
consumption_input dto = record {
  warehouse_id = dto.warehouse_id;
  location_id = none;
  product_id = none;
  material_id = some dto.material_id;
  batch_number = none;
  type = Schema.StockMovementType.consumption;
  quantity = neg (pos dto.quantity);
  unit = dto.unit;
  reference_type = some Schema.ReferenceType.production_order_ref;
  reference_id = some dto.production_order_id;
}

module _ ⦃P : Prisma⦄ (ctx : TenantRequestContext) where
  unfoldable pub create_batch : CreateProductionBatchDto → Action ProductionBatch
  create_batch dto = do
    or_throw (truthy ctx.tenant_id) conflict
    order ← get_order_by_id ctx dto.production_order_id
    n ← count production_batches ctx (λ b. true)
    batch ← create production_batches ctx (λ t i. record {
      id = i;
      tenant_id = t;
      factory_id = order.factory_id;
      batch_number = n + 1;
      production_order_id = dto.production_order_id;
      product_id = order.product_id;
      input_quantity = dto.input_quantity;
      output_quantity = 0;
      wastage = 0;
      rework = 0;
      rejection = 0;
      start_time = or_else dto.start_time ctx.now;
      end_time = none;
      status = BatchStatus.in_progress;
    })
    log ctx Schema.AuditAction.create Schema.EntityType.production_batch batch.id
    pure batch

  unfoldable pub get_batch_by_id : ℕ → Action ProductionBatch
  get_batch_by_id id = do
    found ← find_first production_batches ctx (λ b. b.id == id)
    batch ← or_throw found not_found
    check (assert_factory_access ctx.factory_ids (some batch.factory_id))
    pure batch

  -- `include: { product: … }` of the batch that was read: its unit, 0 without the product.
  unfoldable pub unit_of : ℕ → Action ℕ
  unit_of product_id db = (
    ok (elim (P.find_first (λ p. p.id == product_id) db.products) [ none ↦ 0 | some p ↦ p.unit ]),
    db,
  )

  -- The stock receipt in the transaction, posted for the first output only.
  unfoldable pub receive_output :
      ℕ → RecordBatchOutputDto → ProductionBatch → ℕ → ℕ → Action (Unit {0})
  receive_output id dto batch unit user_id = elim (truthy dto.output_warehouse_id) [
    | none ↦ pure tt
    | some w ↦
        if ltb 0 dto.output_quantity && (batch.output_quantity == 0)
        then (record_movement_in ctx user_id (receipt_input dto batch w unit id) >>= λ _. pure tt)
        else pure tt
  ]

  -- The transaction of `recordBatchOutput`.
  unfoldable pub post_output :
      ℕ → RecordBatchOutputDto → ProductionBatch → ℕ → ℕ → Action ProductionBatch
  unfolding next_status
  post_output id dto batch unit user_id = do
    updated_batch ←
        update production_batches ctx (λ b. b.id == id)
          (λ b. record (with_output dto ctx.now b) { status = next_status batch.status })
    receive_output id dto batch unit user_id
    pure updated_batch

  -- The checks before it, which read the batch and the unit of its product.
  unfoldable pub open_batch : ℕ → RecordBatchOutputDto → Action (ProductionBatch × ℕ)
  open_batch id dto = do
    elim (truthy dto.output_warehouse_id) [
      | none ↦ reject_if (ltb 0 dto.output_quantity) bad_request
      | some w ↦ pure tt
    ]
    batch ← get_batch_by_id id
    unit ← unit_of batch.product_id
    reject_if (is_completed batch.status) bad_request
    pure (batch, unit)

  unfoldable pub record_batch_output : ℕ → RecordBatchOutputDto → ℕ → Action ProductionBatch
  record_batch_output id dto user_id = do
    opened ← open_batch id dto
    updated ← transaction (post_output id dto opened.0 opened.1 user_id)
    log ctx Schema.AuditAction.update Schema.EntityType.production_batch id
    pure updated

  unfoldable pub update_batch_status : ℕ → BatchStatus → Action ProductionBatch
  update_batch_status id status = do
    existing ← get_batch_by_id id
    reject_if (is_completed status && leb existing.output_quantity 0) bad_request
    updated ← update production_batches ctx (λ b. b.id == id) (λ b. record b { status = status })
    log ctx Schema.AuditAction.update Schema.EntityType.production_batch id
    pure updated

  -- The transaction of `recordConsumption`.
  unfoldable pub consume : RecordMaterialConsumptionDto → ℕ → Action MaterialConsumption
  consume dto user_id = do
    created ← create material_consumptions ctx (λ t i. record {
      id = i;
      production_order_id = dto.production_order_id;
      production_batch_id = dto.production_batch_id;
      material_id = dto.material_id;
      warehouse_id = dto.warehouse_id;
      quantity = dto.quantity;
      unit = dto.unit;
    })
    record_movement_in ctx user_id (consumption_input dto)
    pure created

  -- The checks before it.
  unfoldable pub check_consumption : RecordMaterialConsumptionDto → Action (Unit {0})
  check_consumption dto = do
    order ← get_order_by_id ctx dto.production_order_id
    reject_if (is_closed order.status) bad_request
    material ← find_first materials ctx (λ m. m.id == dto.material_id)
    or_throw material not_found
    pure tt

  unfoldable pub record_consumption : RecordMaterialConsumptionDto → ℕ → Action MaterialConsumption
  record_consumption dto user_id = do
    check_consumption dto
    consumption ← transaction (consume dto user_id)
    log ctx Schema.AuditAction.create Schema.EntityType.material_consumption consumption.id
    pure consumption
