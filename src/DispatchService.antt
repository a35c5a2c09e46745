-- ===== src/DispatchService.antt =====
-- Dispatches against sales orders (apps/api/src/dispatch/dispatch.service.ts).
pub mod Keeping
pub mod Shipping
pub mod Checks
pub mod Finality
use abyte_tex.Base.{
  ℕ, ◌+◌, Bool, true, false, Option, none, some, List, [], ◌∷◌, ◌&&◌, ◌==◌, leb, if◌then◌else◌,
  truthy, every, ℤ, pos, neg, abs, sub_ℕ, ltb_ℤ,
}
use abyte_tex.Http.{Error, Result, ok, err, bad_request, conflict, not_found}
use abyte_tex.Context.{TenantRequestContext, assert_factory_access}
use abyte_tex.Workflow.{Status, lists}
use abyte_tex.Schema
use abyte_tex.Schema.{
  SalesOrder, SalesOrderItem, SalesOrderStatus, sales_order_status, Dispatch, DispatchItem,
}
use abyte_tex.Database.{
  Prisma, Db, sales_orders, sales_order_items, warehouses, dispatches, dispatch_items, Action,
  ◌>>=◌, ◌>>◌, pure, throw, check, or_throw, reject_if, for_each, transaction, log, find_first,
  find_many, count, create, update,
}
use abyte_tex.Idempotency.{check_key, record_key}
use abyte_tex.Inventory.{RecordMovementInput, record_movement_in}
use abyte_tex.Quality.{assert_batch_shippable}

pub record DispatchItemDto : Type 0 where
  pub product_id : ℕ
  pub sales_order_item_id : Option ℕ
  pub quantity : ℕ
  pub unit : ℕ
  pub batch_number : Option ℕ

pub record CreateDispatchDto : Type 0 where
  pub factory_id : ℕ
  pub sales_order_id : ℕ
  pub warehouse_id : ℕ
  pub idempotency_key : Option ℕ
  pub items : List DispatchItemDto

-- `DISPATCH_ELIGIBLE_SALES_ORDER_STATUSES`
unfoldable pub eligible_statuses : List SalesOrderStatus
eligible_statuses = SalesOrderStatus.ready ∷ []

-- `salesOrder.items.find((i) => i.id === id)`
unfoldable pub find_item : ℕ → List SalesOrderItem → Option SalesOrderItem
find_item id [] = none
find_item id (i ∷ is) = if i.id == id then some i else find_item id is

-- What of the line is undelivered, which the source computes as a signed number.
abbrev pub remaining : SalesOrderItem → ℤ
remaining i = sub_ℕ i.quantity i.delivered_qty

-- The quantity check of one item of the request.
unfoldable pub check_remaining : List SalesOrderItem → DispatchItemDto → Result (Unit {0})
unfolding find_item
check_remaining items item = elim (truthy item.sales_order_item_id) [
  | none ↦ ok tt
  | some id ↦ elim (find_item id items) [
    | none ↦ ok tt
    | some so_item ↦
        if ltb_ℤ (remaining so_item) (pos item.quantity) then err bad_request else ok tt
  ]
]

abbrev pub issue_input : CreateDispatchDto → DispatchItemDto → ℕ → RecordMovementInput
issue_input dto item dispatch_id = record {
  warehouse_id = dto.warehouse_id;
  location_id = none;
  product_id = some item.product_id;
  material_id = none;
  batch_number = item.batch_number;
  type = Schema.StockMovementType.issue;
  quantity = neg (pos item.quantity);
  unit = item.unit;
  reference_type = some Schema.ReferenceType.dispatch_ref;
  reference_id = some dispatch_id;
}

abbrev pub deliver : ℕ → SalesOrderItem → SalesOrderItem
deliver quantity i = record i { delivered_qty = i.delivered_qty + quantity }

module _ ⦃P : Prisma⦄ (ctx : TenantRequestContext) where
  unfoldable pub get_by_id : ℕ → Action Dispatch
  get_by_id id = do
    found ← find_first dispatches ctx (λ d. d.id == id)
    dispatch ← or_throw found not_found
    check (assert_factory_access ctx.factory_ids (some dispatch.factory_id))
    pure dispatch

  -- The delivered quantity of the order line that an item names.
  unfoldable pub record_delivery : DispatchItemDto → Action (Unit {0})
  record_delivery item = elim (truthy item.sales_order_item_id) [
    | none ↦ pure tt
    | some id ↦ do update sales_order_items ctx (λ i. i.id == id) (deliver item.quantity); pure tt
  ]

  -- One turn of the loop over the items in the transaction.
  unfoldable pub issue_item : CreateDispatchDto → ℕ → ℕ → DispatchItemDto → Action (Unit {0})
  issue_item dto user_id dispatch_id item = do
    record_movement_in ctx user_id (issue_input dto item dispatch_id)
    record_delivery item

  -- The status roll-forward at the end of the transaction.
  unfoldable pub roll_forward : ℕ → Action (Unit {0})
  roll_forward sales_order_id = do
    updated_items ← find_many sales_order_items ctx (λ i. i.sales_order_id == sales_order_id)
    update sales_orders ctx (λ o. o.id == sales_order_id)
        (λ o. record o {
          status =
              if every (λ i. leb i.quantity i.delivered_qty) updated_items
              then SalesOrderStatus.dispatched
              else SalesOrderStatus.ready;
        })
    pure tt

  unfoldable pub open_item : ℕ → DispatchItemDto → Action (Unit {0})
  open_item dispatch_id item = do
    create dispatch_items ctx (λ t i. record {
      dispatch_id = dispatch_id;
      product_id = item.product_id;
      sales_order_item_id = item.sales_order_item_id;
      quantity = item.quantity;
      unit = item.unit;
      batch_number = item.batch_number;
    })
    pure tt

  -- The dispatch row, which the source creates together with its items.
  unfoldable pub open_dispatch : CreateDispatchDto → Action Dispatch
  open_dispatch dto = do
    n ← count dispatches ctx (λ d. true)
    create dispatches ctx (λ t i. record {
      id = i;
      tenant_id = t;
      factory_id = dto.factory_id;
      dispatch_number = n + 1;
      sales_order_id = dto.sales_order_id;
      warehouse_id = dto.warehouse_id;
    })

  -- The transaction.
  unfoldable pub ship : CreateDispatchDto → ℕ → Action Dispatch
  ship dto user_id = do
    created ← open_dispatch dto
    for_each dto.items (open_item created.id)
    for_each dto.items (issue_item dto user_id created.id)
    roll_forward dto.sales_order_id
    pure created

  -- The quality check of one item.
  unfoldable pub check_batch : DispatchItemDto → Action (Unit {0})
  check_batch item = elim (truthy item.batch_number) [
    | none ↦ pure tt
    | some b ↦ assert_batch_shippable ctx b
  ]

  -- The two loops of checks over the items of the request, of which the first stands before the
  -- transaction for the quantities and the second for the quality holds.
  unfoldable pub check_items : List DispatchItemDto → List SalesOrderItem → Action (Unit {0})
  check_items dtos items = do
    for_each dtos (λ item. check (check_remaining items item))
    for_each dtos check_batch

  -- The checks before the transaction.
  unfoldable pub check_dispatch : CreateDispatchDto → Action (Unit {0})
  check_dispatch dto = do
    check (assert_factory_access ctx.factory_ids (some dto.factory_id))
    found ← find_first sales_orders ctx (λ o. o.id == dto.sales_order_id)
    sales_order ← or_throw found not_found
    items ← find_many sales_order_items ctx (λ i. i.sales_order_id == dto.sales_order_id)
    warehouse ← find_first warehouses ctx (λ w. w.id == dto.warehouse_id)
    or_throw warehouse not_found
    reject_if (if lists eligible_statuses sales_order.status then false else true) bad_request
    check_items dto.items items

  -- A dispatch that no earlier request with the same key has made.
  unfoldable pub dispatch_anew : CreateDispatchDto → ℕ → Action Dispatch
  dispatch_anew dto user_id = do
    check_dispatch dto
    dispatch ← transaction (ship dto user_id)
    log ctx Schema.AuditAction.create Schema.EntityType.dispatch dispatch.id
    record_key ctx Schema.dispatch_create dto.idempotency_key dispatch.id
    pure dispatch

  unfoldable pub create_dispatch : CreateDispatchDto → ℕ → Action Dispatch
  create_dispatch dto user_id = do
    or_throw (truthy ctx.tenant_id) conflict
    existing_id ← check_key ctx Schema.dispatch_create dto.idempotency_key
    elim (truthy existing_id) [ some id ↦ get_by_id id | none ↦ dispatch_anew dto user_id ]
