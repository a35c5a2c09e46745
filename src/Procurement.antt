-- ===== src/Procurement.antt =====
-- Purchase requests and purchase orders
-- (apps/api/src/procurement/procurement.service.ts); its children model goods receipts.
pub mod Receipts
pub mod Approval
pub mod Conversion
use abyte_tex.Base.{
  ℕ, ◌+◌, ◌*◌, Bool, true, false, Option, none, some, List, [], ◌∷◌, ◌&&◌, ◌==◌, if◌then◌else◌,
  truthy, not, pos,
}
use abyte_tex.Http.{Error, Result, ok, err, bad_request, conflict, forbidden, not_found}
use abyte_tex.Context.{TenantRequestContext, assert_factory_access}
use abyte_tex.Workflow.{assert_valid_transition}
use abyte_tex.Schema
use abyte_tex.Schema.{
  PurchaseRequest, PurchaseOrder, PurchaseOrderItem, PurchaseRequestStatus, PurchaseOrderStatus,
  purchase_request_status, purchase_order_status, same_purchase_request_status, AuditAction,
}
use abyte_tex.Database.{
  Prisma, Db, purchase_requests, purchase_orders, purchase_order_items, factories, suppliers,
  Action, ◌>>=◌, ◌>>◌, pure, throw, check, or_throw, reject_if, for_each, log, find_first, count,
  create, create_unique, update,
}
use abyte_tex.Idempotency.{check_key, record_key}

-- `PURCHASE_REQUEST_TRANSITIONS`
unfoldable pub request_transitions : PurchaseRequestStatus → List PurchaseRequestStatus
request_transitions PurchaseRequestStatus.draft = PurchaseRequestStatus.pending_approval ∷ []
request_transitions PurchaseRequestStatus.pending_approval =
    PurchaseRequestStatus.approved ∷ PurchaseRequestStatus.rejected ∷ []
request_transitions _ = []

-- `PURCHASE_ORDER_TRANSITIONS`
unfoldable pub order_transitions : PurchaseOrderStatus → List PurchaseOrderStatus
order_transitions PurchaseOrderStatus.draft =
    PurchaseOrderStatus.approved ∷ PurchaseOrderStatus.cancelled ∷ []
order_transitions PurchaseOrderStatus.approved =
    PurchaseOrderStatus.sent ∷ PurchaseOrderStatus.cancelled ∷ []
order_transitions PurchaseOrderStatus.sent = PurchaseOrderStatus.cancelled ∷ []
order_transitions _ = []

pub record PurchaseOrderItemDto : Type 0 where
  pub material_id : ℕ
  pub quantity : ℕ
  pub unit : ℕ
  pub unit_price : ℕ

pub record CreatePurchaseOrderDto : Type 0 where
  pub factory_id : ℕ
  pub supplier_id : ℕ
  pub purchase_request_id : Option ℕ
  pub idempotency_key : Option ℕ
  pub items : List PurchaseOrderItemDto

-- `dto.items.reduce((sum, i) => sum + i.quantity * i.unitPrice, 0)`
unfoldable pub subtotal : List PurchaseOrderItemDto → ℕ
subtotal [] = 0
subtotal (i ∷ is) = i.quantity * i.unit_price + subtotal is

-- `@@unique([tenantId, poNumber])`
abbrev pub same_number : PurchaseOrder → PurchaseOrder → Bool
same_number o p = (p.tenant_id == o.tenant_id) && (p.po_number == o.po_number)

abbrev pub decision_action : PurchaseRequestStatus → AuditAction
decision_action PurchaseRequestStatus.approved = AuditAction.approve
decision_action _ = AuditAction.reject

abbrev pub order_action : PurchaseOrderStatus → AuditAction
order_action PurchaseOrderStatus.approved = AuditAction.approve
order_action _ = AuditAction.update

-- Whether the actor approves an order of their own.
unfoldable pub self_approval : PurchaseOrderStatus → Option ℕ → ℕ → Bool
self_approval PurchaseOrderStatus.approved created_by actor = elim (truthy created_by) [
  | none ↦ false
  | some c ↦ c == actor
]
self_approval _ created_by actor = false

module _ ⦃P : Prisma⦄ (ctx : TenantRequestContext) where
  unfoldable pub create_request : ℕ → ℕ → Action PurchaseRequest
  create_request factory_id requested_by = do
    or_throw (truthy ctx.tenant_id) conflict
    check (assert_factory_access ctx.factory_ids (some factory_id))
    factory ← find_first factories ctx (λ f. f.id == factory_id)
    or_throw factory not_found
    n ← count purchase_requests ctx (λ r. true)
    request ← create purchase_requests ctx (λ t i. record {
      id = i;
      tenant_id = t;
      factory_id = factory_id;
      request_number = n + 1;
      requested_by = requested_by;
      status = PurchaseRequestStatus.draft;
    })
    log ctx AuditAction.create Schema.EntityType.purchase_request request.id
    pure request

  unfoldable pub get_request_by_id : ℕ → Action PurchaseRequest
  get_request_by_id id = do
    found ← find_first purchase_requests ctx (λ r. r.id == id)
    request ← or_throw found not_found
    check (assert_factory_access ctx.factory_ids (some request.factory_id))
    pure request

  unfoldable pub submit_request : ℕ → PurchaseRequestStatus → Action PurchaseRequest
  submit_request id next = do
    existing ← get_request_by_id id
    check (assert_valid_transition request_transitions existing.status next)
    updated ← update purchase_requests ctx (λ r. r.id == id) (λ r. record r { status = next })
    log ctx AuditAction.update Schema.EntityType.purchase_request id
    pure updated

  unfoldable pub decide_request : ℕ → PurchaseRequestStatus → ℕ → Action PurchaseRequest
  decide_request id next actor_user_id = do
    existing ← get_request_by_id id
    check (assert_valid_transition request_transitions existing.status next)
    reject_if (existing.requested_by == actor_user_id) forbidden
    updated ← update purchase_requests ctx (λ r. r.id == id) (λ r. record r { status = next })
    log ctx (decision_action next) Schema.EntityType.purchase_request id
    pure updated

  unfoldable pub update_request_status : ℕ → PurchaseRequestStatus → ℕ → Action PurchaseRequest
  update_request_status id PurchaseRequestStatus.converted actor = throw bad_request
  update_request_status id PurchaseRequestStatus.approved actor =
      decide_request id PurchaseRequestStatus.approved actor
  update_request_status id PurchaseRequestStatus.rejected actor =
      decide_request id PurchaseRequestStatus.rejected actor
  update_request_status id next actor = submit_request id next

  unfoldable pub get_order_by_id : ℕ → Action PurchaseOrder
  get_order_by_id id = do
    found ← find_first purchase_orders ctx (λ o. o.id == id)
    order ← or_throw found not_found
    check (assert_factory_access ctx.factory_ids (some order.factory_id))
    pure order

  -- The check of the purchase request that an order names.
  unfoldable pub check_request : Option ℕ → Action (Unit {0})
  check_request purchase_request_id = elim (truthy purchase_request_id) [
    | none ↦ pure tt
    | some r ↦ do
      request ← get_request_by_id r
      reject_if (not (same_purchase_request_status request.status PurchaseRequestStatus.approved))
          bad_request
  ]

  -- `purchaseRequest.update({ …, data: { status: 'CONVERTED' } })`
  unfoldable pub convert_request : Option ℕ → Action (Unit {0})
  convert_request purchase_request_id = elim (truthy purchase_request_id) [
    | none ↦ pure tt
    | some r ↦ do
      update purchase_requests ctx (λ x. x.id == r)
          (λ x. record x { status = PurchaseRequestStatus.converted })
      pure tt
  ]

  unfoldable pub insert_order : CreatePurchaseOrderDto → ℕ → Action PurchaseOrder
  insert_order dto created_by = do
    n ← count purchase_orders ctx (λ o. true)
    order ← create_unique purchase_orders same_number ctx (λ t i. record {
      id = i;
      tenant_id = t;
      factory_id = dto.factory_id;
      po_number = n + 1;
      supplier_id = dto.supplier_id;
      purchase_request_id = dto.purchase_request_id;
      status = PurchaseOrderStatus.draft;
      created_by = some created_by;
      subtotal = P.to_cents (pos (subtotal dto.items));
      total = P.to_cents (pos (subtotal dto.items));
    })
    for_each dto.items (λ d. do
      create purchase_order_items ctx (λ t i. record {
        id = i;
        purchase_order_id = order.id;
        material_id = some d.material_id;
        quantity = d.quantity;
        unit = d.unit;
        unit_price = d.unit_price;
        line_total = P.to_cents (pos (d.quantity * d.unit_price));
        received_qty = 0;
        rejected_qty = 0;
      })
      pure tt)
    convert_request dto.purchase_request_id
    log ctx AuditAction.create Schema.EntityType.purchase_order order.id
    record_key ctx Schema.purchase_order_create dto.idempotency_key order.id
    pure order

  unfoldable pub create_order : CreatePurchaseOrderDto → ℕ → Action PurchaseOrder
  create_order dto created_by = do
    or_throw (truthy ctx.tenant_id) conflict
    existing_id ← check_key ctx Schema.purchase_order_create dto.idempotency_key
    elim (truthy existing_id) [
      | some id ↦ get_order_by_id id
      | none ↦ do
        check (assert_factory_access ctx.factory_ids (some dto.factory_id))
        supplier ← find_first suppliers ctx (λ s. s.id == dto.supplier_id)
        or_throw supplier not_found
        factory ← find_first factories ctx (λ f. f.id == dto.factory_id)
        or_throw factory not_found
        check_request dto.purchase_request_id
        insert_order dto created_by
    ]

  unfoldable pub change_order_status : ℕ → PurchaseOrderStatus → ℕ → Action PurchaseOrder
  change_order_status id next actor_user_id = do
    existing ← get_order_by_id id
    check (assert_valid_transition order_transitions existing.status next)
    reject_if (self_approval next existing.created_by actor_user_id) forbidden
    updated ← update purchase_orders ctx (λ o. o.id == id) (λ o. record o { status = next })
    log ctx (order_action next) Schema.EntityType.purchase_order id
    pure updated

  unfoldable pub update_order_status : ℕ → PurchaseOrderStatus → ℕ → Action PurchaseOrder
  update_order_status id PurchaseOrderStatus.received actor = throw bad_request
  update_order_status id PurchaseOrderStatus.partially_received actor = throw bad_request
  update_order_status id next actor = change_order_status id next actor
