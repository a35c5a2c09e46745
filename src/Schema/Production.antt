-- ===== src/Schema/Production.antt =====
-- Production and quality (prisma/schema.prisma).
use abyte_tex.Base.{ℕ, Option, Bool, true, ◌≡◌, ◌==◌, ==_refl, arith}
use abyte_tex.Workflow.{Status}

pub data ProductionOrderStatus : Type 0 where
  planned released in_progress paused completed cancelled : ProductionOrderStatus

pub data BatchStatus : Type 0 where
  in_progress completed hold : BatchStatus

pub data QualityOutcome : Type 0 where
  pass rework hold reject : QualityOutcome

pub record ProductionOrder : Type 0 where
  pub id : ℕ
  pub tenant_id : ℕ
  pub factory_id : ℕ
  pub order_number : ℕ
  pub sales_order_id : Option ℕ
  pub product_id : ℕ
  pub quantity : ℕ
  pub unit : ℕ
  pub actual_start_date : Option ℕ
  pub actual_end_date : Option ℕ
  pub status : ProductionOrderStatus

pub record ProductionBatch : Type 0 where
  pub id : ℕ
  pub tenant_id : ℕ
  pub factory_id : ℕ
  pub batch_number : ℕ
  pub production_order_id : ℕ
  pub product_id : ℕ
  pub input_quantity : ℕ
  pub output_quantity : ℕ
  pub wastage : ℕ
  pub rework : ℕ
  pub rejection : ℕ
  pub start_time : ℕ
  pub end_time : Option ℕ
  pub status : BatchStatus

pub record MaterialConsumption : Type 0 where
  pub id : ℕ
  pub production_order_id : ℕ
  pub production_batch_id : Option ℕ
  pub material_id : ℕ
  pub warehouse_id : ℕ
  pub quantity : ℕ
  pub unit : ℕ

pub record QualityInspection : Type 0 where
  pub id : ℕ
  pub tenant_id : ℕ
  pub factory_id : ℕ
  pub inspection_number : ℕ
  pub production_batch_id : Option ℕ
  pub inspected_by : ℕ
  pub outcome : QualityOutcome

abbrev pub production_order_status_index : ProductionOrderStatus → ℕ
production_order_status_index ProductionOrderStatus.planned = 0
production_order_status_index ProductionOrderStatus.released = 1
production_order_status_index ProductionOrderStatus.in_progress = 2
production_order_status_index ProductionOrderStatus.paused = 3
production_order_status_index ProductionOrderStatus.completed = 4
production_order_status_index ProductionOrderStatus.cancelled = 5

abbrev pub same_production_order_status : ProductionOrderStatus → ProductionOrderStatus → Bool
same_production_order_status a b =
    production_order_status_index a == production_order_status_index b

pub same_production_order_status→≡ :
    (a b : ProductionOrderStatus) → same_production_order_status a b ≡ true → a ≡ b
same_production_order_status→≡ a b h = ground arith

instance abbrev pub production_order_status : Status ProductionOrderStatus
production_order_status = record {
  same = same_production_order_status;
  same→≡ = same_production_order_status→≡;
  same_refl = λ a. ==_refl (production_order_status_index a);
}

abbrev pub batch_status_index : BatchStatus → ℕ
batch_status_index BatchStatus.in_progress = 0
batch_status_index BatchStatus.completed = 1
batch_status_index BatchStatus.hold = 2

abbrev pub same_batch_status : BatchStatus → BatchStatus → Bool
same_batch_status a b = batch_status_index a == batch_status_index b

pub same_batch_status→≡ : (a b : BatchStatus) → same_batch_status a b ≡ true → a ≡ b
same_batch_status→≡ a b h = ground arith

instance abbrev pub batch_status : Status BatchStatus
batch_status = record {
  same = same_batch_status;
  same→≡ = same_batch_status→≡;
  same_refl = λ a. ==_refl (batch_status_index a);
}
