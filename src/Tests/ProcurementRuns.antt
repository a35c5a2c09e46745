-- ===== src/Tests/ProcurementRuns.antt =====
-- The properties of procurement on the sample.
use abyte_tex.Base.{ℕ, ◌≡◌, refl, true, none, some, [], ◌∷◌, Memᴰ, leb, ◌+◌}
use abyte_tex.Http.{Error, err, forbidden}
use abyte_tex.Context.{assert_factory_access}
use abyte_tex.Schema
use abyte_tex.Schema.{
  sales_order_status, production_order_status, purchase_request_status, purchase_order_status,
  AuditAction, EntityType, AuditLog, same_purchase_request_status,
}
use abyte_tex.Procurement
use abyte_tex.Procurement.{
  request_transitions, self_approval, update_request_status, CreatePurchaseOrderDto, create_order,
  check_request, get_request_by_id, insert_order, convert_request, subtotal,
}
use abyte_tex.Procurement.Approval
use abyte_tex.Procurement.Receipts.{
  accept_goods_receipt, open_receipt, get_goods_receipt_by_id, accept_all, accept_item,
  close_receipt, GoodsReceiptItemDto, CreateGoodsReceiptDto, create_goods_receipt, receive_anew,
  check_receipt, check_goods, check_item, receive_goods, received_status,
}
use abyte_tex.Database.Effects.{Returns}
use abyte_tex.Idempotency.{check_key, record_key}
use abyte_tex.Database.{for_each}
use abyte_tex.Tests.Samples.{approved_request, request, sample, purchase_request, purchase_order}
use abyte_tex.Procurement.Conversion.{create_order-approved}
use abyte_tex.Procurement.Receipts.Creation.{create_goods_receipt-reconciles}
use abyte_tex.Procurement.Receipts.Once.{accept_goods_receipt_once}
use abyte_tex.Inventory.{record_movement_in, apply_movement, find_stock, settle_stock}
use abyte_tex.Tests.{list_prisma, list_first, list_least}

update_request_status_lem_example :
    update_request_status request 50 Schema.PurchaseRequestStatus.approved 9 sample
    ≡ (err forbidden, sample)
unfolding request_transitions assert_factory_access list_first
update_request_status_lem_example =
    Approval.update_request_status_lem request 1 refl 50 9 sample purchase_request
      Schema.PurchaseRequestStatus.approved refl refl

update_order_status_approvals_example :
    Procurement.update_order_status request 60 Schema.PurchaseOrderStatus.approved 9 sample
    ≡ (err forbidden, sample)
unfolding Procurement.order_transitions assert_factory_access list_first
update_order_status_approvals_example =
    Approval.update_order_status_approvals request 1 refl 60 9 sample purchase_order
      Schema.PurchaseOrderStatus.approved refl refl

accepted : Returns (accept_goods_receipt request 70 8 sample).0
unfolding accept_goods_receipt open_receipt get_goods_receipt_by_id accept_all accept_item
    close_receipt record_movement_in apply_movement find_stock settle_stock for_each
    assert_factory_access list_first list_least
accepted = tt

-- Receipt 70 waits for acceptance.
accept_goods_receipt_once_example :
    let once = (accept_goods_receipt request 70 8 sample).1 in
    (x : Error) × (accept_goods_receipt request 70 8 once ≡ (err x, once))
accept_goods_receipt_once_example =
    accept_goods_receipt_once 1 70 request request 8 8 sample
      (accept_goods_receipt request 70 8 sample).1 refl refl accepted refl

abbrev delivered : ℕ → GoodsReceiptItemDto
delivered rejected = record {
  purchase_order_item_id = 61;
  received_qty = 10;
  accepted_qty = 8;
  rejected_qty = some rejected;
}

abbrev delivery : ℕ → CreateGoodsReceiptDto
delivery rejected = record {
  purchase_order_id = 60;
  warehouse_id = 2;
  idempotency_key = none;
  items = delivered rejected ∷ [];
}

received : Returns (create_goods_receipt request (delivery 2) sample).0
unfolding create_goods_receipt check_key receive_anew check_receipt check_goods check_item
    record_key Procurement.get_order_by_id receive_goods received_status for_each
    assert_factory_access list_first
received = tt

create_goods_receipt-reconciles_example : (true ≡ true) × (leb (8 + 2) 10 ≡ true)
create_goods_receipt-reconciles_example =
    create_goods_receipt-reconciles request 1 refl (delivery 2) sample refl received (delivered 2)
      (Memᴰ.head refl)

abbrev ordered : CreatePurchaseOrderDto
ordered = record {
  factory_id = 4;
  supplier_id = 6;
  purchase_request_id = some 51;
  idempotency_key = none;
  items = record { material_id = 14; quantity = 5; unit = 1; unit_price = 20 } ∷ [];
}

order_created : Returns (create_order request ordered 8 sample).0
unfolding create_order check_key check_request get_request_by_id insert_order convert_request
    subtotal record_key for_each assert_factory_access list_first
order_created = tt

create_order-approved_example :
    same_purchase_request_status approved_request.status Schema.PurchaseRequestStatus.approved
    ≡ true
unfolding list_first
create_order-approved_example =
    create_order-approved request 1 refl ordered 8 51 approved_request sample refl refl refl
      order_created
