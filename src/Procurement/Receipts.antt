-- ===== src/Procurement/Receipts.antt =====
-- Goods receipts: what arrived, and its acceptance into stock
-- (apps/api/src/procurement/procurement.service.ts).
pub mod Acceptance
pub mod Once
pub mod Creation
use abyte_tex.Base.{
  ℕ, ◌+◌, Bool, true, false, Option, none, some, List, [], ◌∷◌, ◌&&◌, ◌==◌, ltb, leb, if◌then◌else◌,
  truthy, every, any, pos, not,
}
use abyte_tex.Http.{Error, Result, ok, err, bad_request, conflict, not_found, record_not_found}
use abyte_tex.Context.{TenantRequestContext, assert_factory_access}
use abyte_tex.Schema
use abyte_tex.Schema.{
  PurchaseOrder, PurchaseOrderItem, PurchaseOrderStatus, GoodsReceipt, GoodsReceiptItem,
  GoodsReceiptStatus, same_goods_receipt_status, AuditAction,
}
use abyte_tex.Database.{
  Prisma, Db, purchase_orders, purchase_order_items, goods_receipts, goods_receipt_items,
  warehouses, Action, ◌>>=◌, ◌>>◌, pure, throw, check, or_throw, reject_if, for_each, transaction,
  log, find_first, find_many, count, create, update,
}
use abyte_tex.Idempotency.{check_key, record_key}
use abyte_tex.Inventory.{RecordMovementInput, record_movement_in}
use abyte_tex.Procurement.{get_order_by_id}

pub record GoodsReceiptItemDto : Type 0 where
  pub purchase_order_item_id : ℕ
  pub received_qty : ℕ
  pub accepted_qty : ℕ
  pub rejected_qty : Option ℕ

pub record CreateGoodsReceiptDto : Type 0 where
  pub purchase_order_id : ℕ
  pub warehouse_id : ℕ
  pub idempotency_key : Option ℕ
  pub items : List GoodsReceiptItemDto

abbrev pub or_zero : Option ℕ → ℕ
or_zero none = 0
or_zero (some n) = n

-- The checks of one item: it belongs to the order, and what it accepts and rejects was received.
unfoldable pub check_item : List PurchaseOrderItem → GoodsReceiptItemDto → Result (Unit {0})
check_item po_items item =
    if any (λ i. i.id == item.purchase_order_item_id) po_items
    then (if ltb item.received_qty (item.accepted_qty + or_zero item.rejected_qty)
        then err bad_request
        else ok tt)
    else err not_found

-- The status of an order after a receipt, if the update changes it.
unfoldable pub received_status : List PurchaseOrderItem → Option PurchaseOrderStatus
received_status items =
    if every (λ i. leb i.quantity i.received_qty) items
    then some PurchaseOrderStatus.received
    else if any (λ i. ltb 0 i.received_qty) items
    then some PurchaseOrderStatus.partially_received
    else none

abbrev pub receive_item : GoodsReceiptItemDto → PurchaseOrderItem → PurchaseOrderItem
receive_item item i = record i {
  received_qty = i.received_qty + item.received_qty;
  rejected_qty = i.rejected_qty + or_zero item.rejected_qty;
}

unfoldable pub total_accepted : List GoodsReceiptItem → ℕ
total_accepted [] = 0
total_accepted (i ∷ is) = i.accepted_qty + total_accepted is

unfoldable pub total_rejected : List GoodsReceiptItem → ℕ
total_rejected [] = 0
total_rejected (i ∷ is) = i.rejected_qty + total_rejected is

-- `finalStatus`
unfoldable pub final_status : List GoodsReceiptItem → GoodsReceiptStatus
unfolding total_accepted total_rejected
final_status items =
    if (total_accepted items == 0) && ltb 0 (total_rejected items)
    then GoodsReceiptStatus.rejected
    else if ltb 0 (total_rejected items)
    then GoodsReceiptStatus.partially_accepted
    else GoodsReceiptStatus.accepted

abbrev pub acceptance_input :
    GoodsReceipt → GoodsReceiptItem → PurchaseOrderItem → RecordMovementInput
acceptance_input receipt item po_item = record {
  warehouse_id = receipt.warehouse_id;
  location_id = none;
  product_id = none;
  material_id = po_item.material_id;
  batch_number = none;
  type = Schema.StockMovementType.receive;
  quantity = pos item.accepted_qty;
  unit = po_item.unit;
  reference_type = some Schema.ReferenceType.goods_receipt_ref;
  reference_id = some receipt.id;
}

module _ ⦃P : Prisma⦄ (ctx : TenantRequestContext) where
  unfoldable pub get_goods_receipt_by_id : ℕ → Action GoodsReceipt
  get_goods_receipt_by_id id = do
    found ← find_first goods_receipts ctx (λ r. r.id == id)
    receipt ← or_throw found not_found
    check (assert_factory_access ctx.factory_ids (some receipt.factory_id))
    pure receipt

  -- The transaction of `createGoodsReceipt`.
  unfoldable pub receive_goods : CreateGoodsReceiptDto → PurchaseOrder → Action GoodsReceipt
  receive_goods dto purchase_order = do
    n ← count goods_receipts ctx (λ r. true)
    created ← create goods_receipts ctx (λ t i. record {
      id = i;
      tenant_id = t;
      factory_id = purchase_order.factory_id;
      receipt_number = n + 1;
      purchase_order_id = dto.purchase_order_id;
      warehouse_id = dto.warehouse_id;
      status = GoodsReceiptStatus.pending_qc;
    })
    for_each dto.items (λ item. do
      create goods_receipt_items ctx (λ t i. record {
        goods_receipt_id = created.id;
        purchase_order_item_id = item.purchase_order_item_id;
        received_qty = item.received_qty;
        accepted_qty = item.accepted_qty;
        rejected_qty = or_zero item.rejected_qty;
      })
      pure tt)
    for_each dto.items (λ item. do
      update purchase_order_items ctx (λ i. i.id == item.purchase_order_item_id) (receive_item item)
      pure tt)
    updated_items ←
        find_many purchase_order_items ctx (λ i. i.purchase_order_id == dto.purchase_order_id)
    update purchase_orders ctx (λ o. o.id == dto.purchase_order_id)
        (λ o. elim (received_status updated_items) [ none ↦ o | some s ↦ record o { status = s } ])
    pure created

  -- The loop of checks over the items of the request.
  unfoldable pub check_goods : List PurchaseOrderItem → List GoodsReceiptItemDto → Action (Unit {0})
  check_goods po_items items = for_each items (λ item. check (check_item po_items item))

  -- The checks of `createGoodsReceipt` before its transaction, and the order that they find.
  unfoldable pub check_receipt : CreateGoodsReceiptDto → Action PurchaseOrder
  check_receipt dto = do
    purchase_order ← get_order_by_id ctx dto.purchase_order_id
    po_items ←
        find_many purchase_order_items ctx (λ i. i.purchase_order_id == dto.purchase_order_id)
    warehouse ← find_first warehouses ctx (λ w. w.id == dto.warehouse_id)
    or_throw warehouse not_found
    check_goods po_items dto.items
    pure purchase_order

  -- A receipt that no earlier request with the same key has made.
  unfoldable pub receive_anew : CreateGoodsReceiptDto → Action GoodsReceipt
  receive_anew dto = do
    purchase_order ← check_receipt dto
    receipt ← transaction (receive_goods dto purchase_order)
    log ctx AuditAction.create Schema.EntityType.goods_receipt receipt.id
    record_key ctx Schema.goods_receipt_create dto.idempotency_key receipt.id
    pure receipt

  unfoldable pub create_goods_receipt : CreateGoodsReceiptDto → Action GoodsReceipt
  create_goods_receipt dto = do
    or_throw (truthy ctx.tenant_id) conflict
    existing_id ← check_key ctx Schema.goods_receipt_create dto.idempotency_key
    elim (truthy existing_id) [ some id ↦ get_goods_receipt_by_id id | none ↦ receive_anew dto ]

  -- One turn of the loop of `acceptGoodsReceipt`, with the order item that the query includes.
  unfoldable pub accept_item : GoodsReceipt → ℕ → GoodsReceiptItem → Action (Unit {0})
  accept_item receipt user_id item = do
    found ← find_first purchase_order_items ctx (λ i. i.id == item.purchase_order_item_id)
    po_item ← or_throw found record_not_found
    if ltb 0 item.accepted_qty
        then (record_movement_in ctx user_id (acceptance_input receipt item po_item) >>= λ _.
            pure tt)
        else pure tt

  unfoldable pub close_receipt : ℕ → List GoodsReceiptItem → Action GoodsReceipt
  close_receipt id items =
      update goods_receipts ctx (λ r. r.id == id) (λ r. record r { status = final_status items })

  -- The transaction of `acceptGoodsReceipt`.
  unfoldable pub accept_all : ℕ → ℕ → GoodsReceipt → List GoodsReceiptItem → Action GoodsReceipt
  accept_all id user_id receipt items = do
    for_each items (accept_item receipt user_id)
    close_receipt id items

  -- The receipt to accept with its items, if it still waits for acceptance.
  unfoldable pub open_receipt : ℕ → Action (GoodsReceipt × List GoodsReceiptItem)
  open_receipt id = do
    receipt ← get_goods_receipt_by_id id
    items ← find_many goods_receipt_items ctx (λ i. i.goods_receipt_id == id)
    reject_if (not (same_goods_receipt_status receipt.status GoodsReceiptStatus.pending_qc))
        bad_request
    pure (receipt, items)

  unfoldable pub accept_goods_receipt : ℕ → ℕ → Action GoodsReceipt
  accept_goods_receipt id user_id = do
    opened ← open_receipt id
    updated ← transaction (accept_all id user_id opened.0 opened.1)
    log ctx AuditAction.update Schema.EntityType.goods_receipt id
    pure updated
