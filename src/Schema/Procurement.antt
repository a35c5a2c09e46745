-- ===== src/Schema/Procurement.antt =====
-- Purchase requests, purchase orders and goods receipts (prisma/schema.prisma).
use abyte_tex.Base.{ℕ, ℤ, Option, Bool, true, ◌≡◌, ◌==◌, ==_refl, arith}
use abyte_tex.Workflow.{Status}

pub data PurchaseRequestStatus : Type 0 where
  draft pending_approval approved rejected converted : PurchaseRequestStatus

pub data PurchaseOrderStatus : Type 0 where
  draft approved sent partially_received received cancelled : PurchaseOrderStatus

pub data GoodsReceiptStatus : Type 0 where
  pending_qc accepted partially_accepted rejected : GoodsReceiptStatus

pub record PurchaseRequest : Type 0 where
  pub id : ℕ
  pub tenant_id : ℕ
  pub factory_id : ℕ
  pub request_number : ℕ
  pub requested_by : ℕ
  pub status : PurchaseRequestStatus

pub record PurchaseOrder : Type 0 where
  pub id : ℕ
  pub tenant_id : ℕ
  pub factory_id : ℕ
  pub po_number : ℕ
  pub supplier_id : ℕ
  pub purchase_request_id : Option ℕ
  pub status : PurchaseOrderStatus
  pub created_by : Option ℕ
  pub subtotal : ℤ
  pub total : ℤ

pub record PurchaseOrderItem : Type 0 where
  pub id : ℕ
  pub purchase_order_id : ℕ
  pub material_id : Option ℕ
  pub quantity : ℕ
  pub unit : ℕ
  pub unit_price : ℕ
  pub line_total : ℤ
  pub received_qty : ℕ
  pub rejected_qty : ℕ

pub record GoodsReceipt : Type 0 where
  pub id : ℕ
  pub tenant_id : ℕ
  pub factory_id : ℕ
  pub receipt_number : ℕ
  pub purchase_order_id : ℕ
  pub warehouse_id : ℕ
  pub status : GoodsReceiptStatus

pub record GoodsReceiptItem : Type 0 where
  pub goods_receipt_id : ℕ
  pub purchase_order_item_id : ℕ
  pub received_qty : ℕ
  pub accepted_qty : ℕ
  pub rejected_qty : ℕ

abbrev pub purchase_request_status_index : PurchaseRequestStatus → ℕ
purchase_request_status_index PurchaseRequestStatus.draft = 0
purchase_request_status_index PurchaseRequestStatus.pending_approval = 1
purchase_request_status_index PurchaseRequestStatus.approved = 2
purchase_request_status_index PurchaseRequestStatus.rejected = 3
purchase_request_status_index PurchaseRequestStatus.converted = 4

abbrev pub same_purchase_request_status : PurchaseRequestStatus → PurchaseRequestStatus → Bool
same_purchase_request_status a b =
    purchase_request_status_index a == purchase_request_status_index b

pub same_purchase_request_status→≡ :
    (a b : PurchaseRequestStatus) → same_purchase_request_status a b ≡ true → a ≡ b
same_purchase_request_status→≡ a b h = ground arith

instance abbrev pub purchase_request_status : Status PurchaseRequestStatus
purchase_request_status = record {
  same = same_purchase_request_status;
  same→≡ = same_purchase_request_status→≡;
  same_refl = λ a. ==_refl (purchase_request_status_index a);
}

abbrev pub purchase_order_status_index : PurchaseOrderStatus → ℕ
purchase_order_status_index PurchaseOrderStatus.draft = 0
purchase_order_status_index PurchaseOrderStatus.approved = 1
purchase_order_status_index PurchaseOrderStatus.sent = 2
purchase_order_status_index PurchaseOrderStatus.partially_received = 3
purchase_order_status_index PurchaseOrderStatus.received = 4
purchase_order_status_index PurchaseOrderStatus.cancelled = 5

abbrev pub same_purchase_order_status : PurchaseOrderStatus → PurchaseOrderStatus → Bool
same_purchase_order_status a b = purchase_order_status_index a == purchase_order_status_index b

pub same_purchase_order_status→≡ :
    (a b : PurchaseOrderStatus) → same_purchase_order_status a b ≡ true → a ≡ b
same_purchase_order_status→≡ a b h = ground arith

instance abbrev pub purchase_order_status : Status PurchaseOrderStatus
purchase_order_status = record {
  same = same_purchase_order_status;
  same→≡ = same_purchase_order_status→≡;
  same_refl = λ a. ==_refl (purchase_order_status_index a);
}

abbrev pub goods_receipt_status_index : GoodsReceiptStatus → ℕ
goods_receipt_status_index GoodsReceiptStatus.pending_qc = 0
goods_receipt_status_index GoodsReceiptStatus.accepted = 1
goods_receipt_status_index GoodsReceiptStatus.partially_accepted = 2
goods_receipt_status_index GoodsReceiptStatus.rejected = 3

abbrev pub same_goods_receipt_status : GoodsReceiptStatus → GoodsReceiptStatus → Bool
same_goods_receipt_status a b = goods_receipt_status_index a == goods_receipt_status_index b

pub same_goods_receipt_status→≡ :
    (a b : GoodsReceiptStatus) → same_goods_receipt_status a b ≡ true → a ≡ b
same_goods_receipt_status→≡ a b h = ground arith

instance abbrev pub goods_receipt_status : Status GoodsReceiptStatus
goods_receipt_status = record {
  same = same_goods_receipt_status;
  same→≡ = same_goods_receipt_status→≡;
  same_refl = λ a. ==_refl (goods_receipt_status_index a);
}
