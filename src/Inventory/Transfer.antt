-- ===== src/Inventory/Transfer.antt =====
-- `transferStock` of apps/api/src/inventory/inventory.service.ts, and the movement that the POST
-- handler of apps/api/src/inventory/inventory.controller.ts makes of its request.
pub mod Recording
use abyte_tex.Base.{
  ℕ, Bool, true, false, Option, none, some, if◌then◌else◌, truthy, ℤ, pos, neg, abs,
}
use abyte_tex.Http.{Error, Result, ok, err}
use abyte_tex.Context.{TenantRequestContext}
use abyte_tex.Schema
use abyte_tex.Schema.{StockMovement, StockMovementType}
use abyte_tex.Database.{Prisma, Db, Action, ◌>>=◌, ◌>>◌, pure, transaction, log}
use abyte_tex.Inventory.{RecordMovementInput, record_movement_in, record_movement}

pub data ManualMovementType : Type 0 where
  receive issue adjustment return_ : ManualMovementType

pub record RecordMovementDto : Type 0 where
  pub warehouse_id : ℕ
  pub location_id : Option ℕ
  pub product_id : Option ℕ
  pub material_id : Option ℕ
  pub batch_number : Option ℕ
  pub type : ManualMovementType
  pub quantity : ℤ
  pub unit : ℕ
  pub decrease : Bool

pub record TransferStockDto : Type 0 where
  pub from_warehouse_id : ℕ
  pub from_location_id : Option ℕ
  pub to_warehouse_id : ℕ
  pub to_location_id : Option ℕ
  pub product_id : Option ℕ
  pub material_id : Option ℕ
  pub batch_number : Option ℕ
  pub quantity : ℤ
  pub unit : ℕ

abbrev pub stock_type : ManualMovementType → StockMovementType
stock_type ManualMovementType.receive = StockMovementType.receive
stock_type ManualMovementType.issue = StockMovementType.issue
stock_type ManualMovementType.adjustment = StockMovementType.adjustment
stock_type ManualMovementType.return_ = StockMovementType.return

-- `signedQuantity`
unfoldable pub signed_quantity : ManualMovementType → Bool → ℤ → ℤ
signed_quantity ManualMovementType.issue decrease q = neg (abs q)
signed_quantity ManualMovementType.adjustment true q = neg (abs q)
signed_quantity _ _ q = abs q

abbrev pub manual_input : RecordMovementDto → RecordMovementInput
manual_input dto = record {
  warehouse_id = dto.warehouse_id;
  location_id = dto.location_id;
  product_id = dto.product_id;
  material_id = dto.material_id;
  batch_number = dto.batch_number;
  type = stock_type dto.type;
  quantity = signed_quantity dto.type dto.decrease dto.quantity;
  unit = dto.unit;
  reference_type = none;
  reference_id = none;
}

-- The two legs of a transfer.
abbrev pub out_input : TransferStockDto → RecordMovementInput
out_input input = record {
  warehouse_id = input.from_warehouse_id;
  location_id = input.from_location_id;
  product_id = input.product_id;
  material_id = input.material_id;
  batch_number = input.batch_number;
  type = StockMovementType.transfer;
  quantity = neg (abs input.quantity);
  unit = input.unit;
  reference_type = none;
  reference_id = none;
}

abbrev pub in_input : TransferStockDto → RecordMovementInput
in_input input = record (out_input input) {
  warehouse_id = input.to_warehouse_id;
  location_id = input.to_location_id;
  quantity = abs input.quantity;
}

module _ ⦃P : Prisma⦄ (ctx : TenantRequestContext) where
  -- The handler of `POST /inventory/movements`.
  unfoldable pub post_movement : ℕ → RecordMovementDto → Action StockMovement
  post_movement user_id dto = record_movement ctx user_id (manual_input dto)

  -- The transaction of `transferStock`.
  unfoldable pub move : ℕ → TransferStockDto → Action (StockMovement × StockMovement)
  move user_id input = do
    from_movement ← record_movement_in ctx user_id (out_input input)
    to_movement ← record_movement_in ctx user_id (in_input input)
    pure (from_movement, to_movement)

  unfoldable pub transfer_stock : ℕ → TransferStockDto → Action StockMovement
  transfer_stock user_id input = do
    moved ← transaction (move user_id input)
    log ctx Schema.AuditAction.create Schema.EntityType.stock_movement moved.0.id
    log ctx Schema.AuditAction.create Schema.EntityType.stock_movement moved.1.id
    pure moved.1
