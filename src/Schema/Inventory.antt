-- ===== src/Schema/Inventory.antt =====
-- Stock and its ledger (prisma/schema.prisma, models Stock and StockMovement).
use abyte_tex.Base.{ℕ, ℤ, Option}

pub data StockMovementType : Type 0 where
  receive issue transfer adjustment return consumption production_receipt : StockMovementType

pub data ReferenceType : Type 0 where
  goods_receipt_ref dispatch_ref production_batch_ref production_order_ref : ReferenceType

pub record Stock : Type 0 where
  pub id : ℕ
  pub tenant_id : ℕ
  pub warehouse_id : ℕ
  pub location_id : Option ℕ
  pub product_id : Option ℕ
  pub material_id : Option ℕ
  pub batch_number : Option ℕ
  pub quantity : ℤ
  pub unit : ℕ
  pub updated_at : ℕ

pub record StockMovement : Type 0 where
  pub id : ℕ
  pub tenant_id : ℕ
  pub warehouse_id : ℕ
  pub location_id : Option ℕ
  pub product_id : Option ℕ
  pub material_id : Option ℕ
  pub batch_number : Option ℕ
  pub type : StockMovementType
  pub quantity : ℤ
  pub unit : ℕ
  pub reference_type : Option ReferenceType
  pub reference_id : Option ℕ
  pub created_by : ℕ
