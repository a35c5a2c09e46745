-- ===== src/Schema/Sales.antt =====
-- Sales orders and dispatches (prisma/schema.prisma).
use abyte_tex.Base.{ℕ, ℤ, Option, Bool, true, ◌≡◌, ◌==◌, ==_refl, arith}
use abyte_tex.Workflow.{Status}

pub data SalesOrderStatus : Type 0 where
  draft confirmed production_planned in_production quality : SalesOrderStatus
  ready dispatched completed cancelled : SalesOrderStatus

pub record SalesOrder : Type 0 where
  pub id : ℕ
  pub tenant_id : ℕ
  pub factory_id : ℕ
  pub order_number : ℕ
  pub customer_id : ℕ
  pub status : SalesOrderStatus
  pub subtotal : ℤ
  pub discount : ℕ
  pub tax : ℕ
  pub total : ℤ

pub record SalesOrderItem : Type 0 where
  pub id : ℕ
  pub sales_order_id : ℕ
  pub product_id : ℕ
  pub quantity : ℕ
  pub unit : ℕ
  pub unit_price : ℕ
  pub discount : ℕ
  pub line_total : ℤ
  pub delivered_qty : ℕ

pub record Dispatch : Type 0 where
  pub id : ℕ
  pub tenant_id : ℕ
  pub factory_id : ℕ
  pub dispatch_number : ℕ
  pub sales_order_id : ℕ
  pub warehouse_id : ℕ

pub record DispatchItem : Type 0 where
  pub dispatch_id : ℕ
  pub product_id : ℕ
  pub sales_order_item_id : Option ℕ
  pub quantity : ℕ
  pub unit : ℕ
  pub batch_number : Option ℕ

abbrev pub sales_order_status_index : SalesOrderStatus → ℕ
sales_order_status_index draft = 0
sales_order_status_index confirmed = 1
sales_order_status_index production_planned = 2
sales_order_status_index in_production = 3
sales_order_status_index quality = 4
sales_order_status_index ready = 5
sales_order_status_index dispatched = 6
sales_order_status_index completed = 7
sales_order_status_index cancelled = 8

abbrev pub same_sales_order_status : SalesOrderStatus → SalesOrderStatus → Bool
same_sales_order_status a b = sales_order_status_index a == sales_order_status_index b

pub same_sales_order_status→≡ :
    (a b : SalesOrderStatus) → same_sales_order_status a b ≡ true → a ≡ b
same_sales_order_status→≡ a b h = ground arith

instance abbrev pub sales_order_status : Status SalesOrderStatus
sales_order_status = record {
  same = same_sales_order_status;
  same→≡ = same_sales_order_status→≡;
  same_refl = λ a. ==_refl (sales_order_status_index a);
}
