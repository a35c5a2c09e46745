-- ===== src/Inventory.antt =====
-- Stock movements (apps/api/src/inventory/inventory.service.ts and the two POST handlers of
-- apps/api/src/inventory/inventory.controller.ts). A service's own read and its later write are
-- separate statements of a READ COMMITTED transaction: `between` is what other transactions commit
-- between the two, the identity where there are none.
pub mod Posting
pub mod Balance
pub mod Recording
pub mod Outcomes
pub mod Transfer
use abyte_tex.Base.{
  ℕ, ◌+◌, Bool, true, false, Option, none, some, List, [], ◌∷◌, ◌&&◌, ◌||◌, ◌==◌, ◌==?◌,
  if◌then◌else◌, truthy, any, ℤ, pos, negsuc, ◌+ℤ◌, ltb_ℤ, abs, neg,
}
use abyte_tex.Http.{Error, Result, ok, err, bad_request, unique_violation, internal}
use abyte_tex.Context.{TenantRequestContext}
use abyte_tex.Schema
use abyte_tex.Schema.{
  Stock, StockMovement, StockMovementType, ReferenceType, adjustment, issue, transfer,
}
use abyte_tex.Database.{
  Prisma, Db, stock, stock_movements, Action, ◌>>=◌, ◌>>◌, pure, throw, or_throw, transaction,
  reject_if, scope, log, find_first, find_least, create, update,
}

pub record RecordMovementInput : Type 0 where
  pub warehouse_id : ℕ
  pub location_id : Option ℕ
  pub product_id : Option ℕ
  pub material_id : Option ℕ
  pub batch_number : Option ℕ
  pub type : StockMovementType
  pub quantity : ℤ
  pub unit : ℕ
  pub reference_type : Option ReferenceType
  pub reference_id : Option ℕ

-- `baseStockWhere`
abbrev pub base_where : RecordMovementInput → Stock → Bool
base_where input s =
    (s.warehouse_id == input.warehouse_id)
    && (s.location_id ==? input.location_id)
    && (s.product_id ==? input.product_id)
    && (s.material_id ==? input.material_id)

-- The unique expression index "stock_identity_key_idx": null and the empty text coincide.
abbrev pub coalesce : Option ℕ → ℕ
coalesce none = 0
coalesce (some a) = a

abbrev pub same_identity : Stock → Stock → Bool
same_identity r s =
    (s.warehouse_id == r.warehouse_id)
    && (coalesce s.location_id == coalesce r.location_id)
    && (coalesce s.product_id == coalesce r.product_id)
    && (coalesce s.material_id == coalesce r.material_id)
    && (coalesce s.batch_number == coalesce r.batch_number)

-- The primary key of the table and the index above.
abbrev pub stock_conflict : Stock → Stock → Bool
stock_conflict r s = (s.id == r.id) || same_identity r s

abbrev pub stock_row : RecordMovementInput → ℕ → ℕ → ℕ → Stock
stock_row input now t i = record {
  id = i;
  tenant_id = t;
  warehouse_id = input.warehouse_id;
  location_id = input.location_id;
  product_id = input.product_id;
  material_id = input.material_id;
  batch_number = input.batch_number;
  quantity = input.quantity;
  unit = input.unit;
  updated_at = now;
}

abbrev pub movement_row : RecordMovementInput → ℕ → ℕ → ℕ → StockMovement
movement_row input user_id t i = record {
  id = i;
  tenant_id = t;
  warehouse_id = input.warehouse_id;
  location_id = input.location_id;
  product_id = input.product_id;
  material_id = input.material_id;
  batch_number = input.batch_number;
  type = input.type;
  quantity = input.quantity;
  unit = input.unit;
  reference_type = input.reference_type;
  reference_id = input.reference_id;
  created_by = user_id;
}

-- The delta is negative and would take `on_hand` below zero.
abbrev pub overdraws : ℤ → ℤ → Bool
overdraws quantity on_hand = ltb_ℤ quantity (pos 0) && ltb_ℤ (on_hand +ℤ quantity) (pos 0)

abbrev pub increment : ℤ → ℕ → Stock → Stock
increment quantity now s = record s { quantity = s.quantity +ℤ quantity; updated_at = now }

module _ ⦃P : Prisma⦄ (ctx : TenantRequestContext) where
  -- `tx.stock.findFirst`: the named batch's row, or any row of the item, oldest first.
  unfoldable pub find_stock : RecordMovementInput → Action (Option Stock)
  find_stock input = elim (truthy input.batch_number) [
    | some b ↦ find_first stock ctx (λ s. base_where input s && (s.batch_number ==? some b))
    | none ↦ find_least stock (λ s. s.updated_at) ctx (base_where input)
  ]

  -- `tx.stock.create`
  abbrev pub create_stock : RecordMovementInput → Action Stock
  create_stock input = do
    t ← scope ctx
    λ db.
        if any (stock_conflict (stock_row input ctx.now t (P.cuid db.generated))) db.stock
        then (err unique_violation, db)
        else create stock ctx (stock_row input ctx.now) db

  abbrev pub increment_stock : ℕ → ℤ → Action Stock
  increment_stock id quantity = update stock ctx (λ s. s.id == id) (increment quantity ctx.now)

  -- The `catch` of P2002: find again, and increment.
  unfoldable pub retry_increment : RecordMovementInput → Action Stock
  retry_increment input = do
    retry_target ← find_stock input
    s ← or_throw retry_target unique_violation
    increment_stock s.id input.quantity

  abbrev pub on_unique_violation : Action Stock → Result Stock × Db → Result Stock × Db
  on_unique_violation retry (err unique_violation, db) = retry db
  on_unique_violation retry (r, db) = (r, db)

  abbrev pub create_or_retry : RecordMovementInput → Action Stock
  create_or_retry input db = on_unique_violation (retry_increment input) (create_stock input db)

  -- What follows the first read of the stock row.
  unfoldable pub settle_stock : RecordMovementInput → Option Stock → Action Stock
  settle_stock input (some existing) = do
    reject_if (overdraws input.quantity existing.quantity) bad_request
    increment_stock existing.id input.quantity
  settle_stock input none = do
    reject_if (ltb_ℤ input.quantity (pos 0)) bad_request
    create_or_retry input

  unfoldable pub apply_movement : (Db → Db) → ℕ → RecordMovementInput → Action StockMovement
  apply_movement between user_id input = do
    movement ← create stock_movements ctx (movement_row input user_id)
    existing_stock ← find_stock input
    λ db. (ok tt, between db)
    settle_stock input existing_stock
    pure movement

  -- `recordMovement` with a caller's transaction: the caller rolls back, and writes the audit log.
  unfoldable pub record_movement_in : ℕ → RecordMovementInput → Action StockMovement
  record_movement_in user_id input = do
    or_throw (truthy ctx.tenant_id) internal
    apply_movement (λ db. db) user_id input

  -- `recordMovement` in a transaction of its own.
  unfoldable pub record_movement : ℕ → RecordMovementInput → Action StockMovement
  record_movement user_id input = do
    or_throw (truthy ctx.tenant_id) internal
    movement ← transaction (apply_movement (λ db. db) user_id input)
    log ctx Schema.AuditAction.create Schema.stock_movement movement.id
    pure movement
