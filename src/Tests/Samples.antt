-- ===== src/Tests/Samples.antt =====
-- A small database and the context of a request of tenant 1 for factory 4.
use abyte_tex.Base.{ℕ, false, none, some, [], ◌∷◌, pos}
use abyte_tex.Context.{TenantRequestContext}
use abyte_tex.Schema
use abyte_tex.Schema.{
  Stock, StockMovement, SalesOrder, SalesOrderItem, ProductionOrder, ProductionBatch,
  PurchaseRequest, PurchaseOrder, PurchaseOrderItem, GoodsReceipt, GoodsReceiptItem, Product,
}
use abyte_tex.Database.{Db, SiteDb}
use abyte_tex.Tests.AccessSamples.{sample_access}
use abyte_tex.Tests.PlantSamples.{sample_plant}

abbrev pub request : TenantRequestContext
request = record {
  user_id = 8;
  tenant_id = some 1;
  is_platform_admin = false;
  factory_ids = 4 ∷ [];
  now = 100;
}

abbrev pub loose : Stock
loose = record {
  id = 10;
  tenant_id = 1;
  warehouse_id = 2;
  location_id = none;
  product_id = some 3;
  material_id = none;
  batch_number = none;
  quantity = pos 1000;
  unit = 1;
  updated_at = 5;
}

abbrev pub in_batch : Stock
in_batch = record loose { id = 12; batch_number = some 7; quantity = pos 600; updated_at = 6 }

abbrev pub posting : Stock → ℕ → StockMovement
posting s id = record {
  id = id;
  tenant_id = s.tenant_id;
  warehouse_id = s.warehouse_id;
  location_id = s.location_id;
  product_id = s.product_id;
  material_id = s.material_id;
  batch_number = s.batch_number;
  type = Schema.StockMovementType.receive;
  quantity = s.quantity;
  unit = s.unit;
  reference_type = none;
  reference_id = none;
  created_by = 9;
}

abbrev pub sales_order : SalesOrder
sales_order = record {
  id = 20;
  tenant_id = 1;
  factory_id = 4;
  order_number = 1;
  customer_id = 5;
  status = Schema.SalesOrderStatus.ready;
  subtotal = pos 0;
  discount = 0;
  tax = 0;
  total = pos 0;
}

abbrev pub sales_order_item : SalesOrderItem
sales_order_item = record {
  id = 21;
  sales_order_id = 20;
  product_id = 3;
  quantity = 500;
  unit = 1;
  unit_price = 100;
  discount = 0;
  line_total = pos 50;
  delivered_qty = 100;
}

abbrev pub batch : ProductionBatch
batch = record {
  id = 30;
  tenant_id = 1;
  factory_id = 4;
  batch_number = 7;
  production_order_id = 40;
  product_id = 3;
  input_quantity = 700;
  output_quantity = 600;
  wastage = 0;
  rework = 0;
  rejection = 0;
  start_time = 1;
  end_time = some 2;
  status = Schema.BatchStatus.completed;
}

abbrev pub held_batch : ProductionBatch
held_batch = record batch { id = 31; batch_number = 9; status = Schema.BatchStatus.hold }

abbrev pub production_order : ProductionOrder
production_order = record {
  id = 40;
  tenant_id = 1;
  factory_id = 4;
  order_number = 1;
  sales_order_id = some 20;
  product_id = 3;
  quantity = 700;
  unit = 1;
  actual_start_date = some 1;
  actual_end_date = none;
  status = Schema.ProductionOrderStatus.in_progress;
}

abbrev pub purchase_request : PurchaseRequest
purchase_request = record {
  id = 50;
  tenant_id = 1;
  factory_id = 4;
  request_number = 1;
  requested_by = 9;
  status = Schema.PurchaseRequestStatus.pending_approval;
}

abbrev pub approved_request : PurchaseRequest
approved_request = record purchase_request {
  id = 51;
  request_number = 2;
  status = Schema.PurchaseRequestStatus.approved;
}

abbrev pub purchase_order : PurchaseOrder
purchase_order = record {
  id = 60;
  tenant_id = 1;
  factory_id = 4;
  po_number = 1;
  supplier_id = 6;
  purchase_request_id = none;
  status = Schema.PurchaseOrderStatus.draft;
  created_by = some 9;
  subtotal = pos 0;
  total = pos 0;
}

abbrev pub purchase_order_item : PurchaseOrderItem
purchase_order_item = record {
  id = 61;
  purchase_order_id = 60;
  material_id = some 14;
  quantity = 300;
  unit = 1;
  unit_price = 10;
  line_total = pos 3;
  received_qty = 300;
  rejected_qty = 0;
}

abbrev pub waiting : GoodsReceipt
waiting = record {
  id = 70;
  tenant_id = 1;
  factory_id = 4;
  receipt_number = 1;
  purchase_order_id = 60;
  warehouse_id = 2;
  status = Schema.GoodsReceiptStatus.pending_qc;
}

abbrev pub closed : GoodsReceipt
closed = record waiting { id = 72; receipt_number = 2; status = Schema.GoodsReceiptStatus.accepted }

abbrev pub receipt_item : GoodsReceiptItem
receipt_item = record {
  goods_receipt_id = 70;
  purchase_order_item_id = 61;
  received_qty = 300;
  accepted_qty = 250;
  rejected_qty = 50;
}

abbrev pub sample_site : SiteDb
sample_site = record {
  departments = [];
  shifts = [];
  locations = [];
  product_categories = [];
  notifications = [];
}

abbrev pub sample : Db
sample = record {
  stock = loose ∷ in_batch ∷ [];
  stock_movements = posting loose 11 ∷ posting in_batch 13 ∷ [];
  sales_orders = sales_order ∷ [];
  sales_order_items = sales_order_item ∷ [];
  dispatches = [];
  dispatch_items = [];
  production_orders = production_order ∷ [];
  production_batches = batch ∷ held_batch ∷ [];
  material_consumptions = [];
  quality_inspections = [];
  purchase_requests = purchase_request ∷ approved_request ∷ [];
  purchase_orders = purchase_order ∷ [];
  purchase_order_items = purchase_order_item ∷ [];
  goods_receipts = waiting ∷ closed ∷ [];
  goods_receipt_items = receipt_item ∷ [];
  factories = record { id = 4; tenant_id = 1; code = 1; name = 1 } ∷ [];
  warehouses = record { id = 2; tenant_id = 1; factory_id = 4; code = 1; name = 1 } ∷ [];
  customers = record { id = 5; tenant_id = 1; name = 1 } ∷ [];
  suppliers = record { id = 6; tenant_id = 1; name = 1 } ∷ [];
  materials = record { id = 14; tenant_id = 1; code = 1; unit = 1; reorder_level = none } ∷ [];
  products = record { id = 3; tenant_id = 1; sku = 1; category_id = none; unit = 1 } ∷ [];
  idempotency_keys = [];
  audit_log = [];
  access = sample_access;
  plant = sample_plant;
  site = sample_site;
  generated = 100;
}
