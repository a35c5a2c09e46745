-- ===== src/Sales.antt =====
-- Sales orders (apps/api/src/sales/sales.service.ts).
pub mod Transitions
pub mod Rounding
pub mod Totals
pub mod Finality
use abyte_tex.Base.{
  ℕ, ◌+◌, ◌*◌, Bool, Option, none, some, List, [], ◌∷◌, ◌&&◌, ◌==◌, ltb, if◌then◌else◌, truthy, any,
  map, every, length, ℤ, pos, ◌+ℤ◌, ◌-ℤ◌, not,
}
use abyte_tex.Http.{Error, Result, ok, err, bad_request, conflict, not_found}
use abyte_tex.Context.{TenantRequestContext, assert_factory_access}
use abyte_tex.Workflow.{assert_valid_transition}
use abyte_tex.Schema
use abyte_tex.Schema.{
  SalesOrder, SalesOrderItem, SalesOrderStatus, sales_order_status, draft, confirmed,
  production_planned, in_production, quality, ready, dispatched, completed, cancelled,
}
use abyte_tex.Database.{
  Prisma, Db, sales_orders, sales_order_items, customers, factories, products, Action, ◌>>=◌, ◌>>◌,
  pure, throw, check, or_throw, reject_if, for_each, log, find_first, find_many, count, create,
  create_unique, update,
}
use abyte_tex.Idempotency.{check_key, record_key}

-- `SALES_ORDER_MANUAL_TRANSITIONS`
unfoldable pub manual_transitions : SalesOrderStatus → List SalesOrderStatus
manual_transitions draft = confirmed ∷ cancelled ∷ []
manual_transitions confirmed = production_planned ∷ cancelled ∷ []
manual_transitions production_planned = in_production ∷ cancelled ∷ []
manual_transitions in_production = quality ∷ cancelled ∷ []
manual_transitions quality = ready ∷ cancelled ∷ []
manual_transitions ready = cancelled ∷ []
manual_transitions dispatched = completed ∷ []
manual_transitions completed = []
manual_transitions cancelled = []

pub record CreateSalesOrderItemDto : Type 0 where
  pub product_id : ℕ
  pub quantity : ℕ
  pub unit : ℕ
  pub unit_price : ℕ
  pub discount : Option ℕ

pub record CreateSalesOrderDto : Type 0 where
  pub factory_id : ℕ
  pub customer_id : ℕ
  pub discount : Option ℕ
  pub tax : Option ℕ
  pub idempotency_key : Option ℕ
  pub items : List CreateSalesOrderItemDto

-- `x ?? 0`
abbrev pub or_zero : Option ℕ → ℕ
or_zero none = 0
or_zero (some n) = n

-- In units of 10⁻⁵, as are the sums.
unfoldable pub line_total : CreateSalesOrderItemDto → ℤ
line_total i = pos (i.quantity * i.unit_price) -ℤ pos (1000 * or_zero i.discount)

unfoldable pub sum_line_totals : List CreateSalesOrderItemDto → ℤ
sum_line_totals [] = pos 0
sum_line_totals (i ∷ is) = line_total i +ℤ sum_line_totals is

unfoldable pub order_total : CreateSalesOrderDto → ℤ
order_total dto =
    sum_line_totals dto.items -ℤ pos (1000 * or_zero dto.discount) +ℤ pos (1000 * or_zero dto.tax)

-- The size of `new Set(ids)`, and the test `ids.includes(id)`.
abbrev pub distinct : List ℕ → ℕ
distinct [] = 0
distinct (x ∷ xs) = if any (λ y. y == x) xs then distinct xs else distinct xs + 1

-- `@@unique([tenantId, orderNumber])`
abbrev pub same_number : SalesOrder → SalesOrder → Bool
same_number o p = (p.tenant_id == o.tenant_id) && (p.order_number == o.order_number)

-- The rows as the columns store them.
module _ ⦃P : Prisma⦄ where
  abbrev pub order_row : CreateSalesOrderDto → ℕ → ℕ → ℕ → SalesOrder
  order_row dto order_number t i = record {
    id = i;
    tenant_id = t;
    factory_id = dto.factory_id;
    order_number = order_number;
    customer_id = dto.customer_id;
    status = draft;
    subtotal = P.to_cents (sum_line_totals dto.items);
    discount = or_zero dto.discount;
    tax = or_zero dto.tax;
    total = P.to_cents (order_total dto);
  }

  abbrev pub item_row : ℕ → CreateSalesOrderItemDto → ℕ → ℕ → SalesOrderItem
  item_row order_id dto t i = record {
    id = i;
    sales_order_id = order_id;
    product_id = dto.product_id;
    quantity = dto.quantity;
    unit = dto.unit;
    unit_price = dto.unit_price;
    discount = or_zero dto.discount;
    line_total = P.to_cents (line_total dto);
    delivered_qty = 0;
  }

module _ ⦃P : Prisma⦄ (ctx : TenantRequestContext) where
  unfoldable pub get_by_id : ℕ → Action SalesOrder
  get_by_id id = do
    found ← find_first sales_orders ctx (λ o. o.id == id)
    order ← or_throw found not_found
    check (assert_factory_access ctx.factory_ids (some order.factory_id))
    pure order

  -- The items that the order's queries include.
  abbrev pub items_of : ℕ → Action (List SalesOrderItem)
  items_of order_id = find_many sales_order_items ctx (λ i. i.sales_order_id == order_id)

  unfoldable pub generate_order_number : Action ℕ
  generate_order_number = do n ← count sales_orders ctx (λ o. Bool.true); pure (n + 1)

  unfoldable pub insert_order : CreateSalesOrderDto → Action SalesOrder
  insert_order dto = do
    order_number ← generate_order_number
    order ← create_unique sales_orders same_number ctx (order_row dto order_number)
    for_each dto.items (λ i. create sales_order_items ctx (item_row order.id i) >>= λ _. pure tt)
    log ctx Schema.AuditAction.create Schema.sales_order order.id
    record_key ctx Schema.sales_order_create dto.idempotency_key order.id
    pure order

  unfoldable pub create_order : CreateSalesOrderDto → Action SalesOrder
  create_order dto = do
    or_throw (truthy ctx.tenant_id) conflict
    existing_id ← check_key ctx Schema.sales_order_create dto.idempotency_key
    elim (truthy existing_id) [
      | some id ↦ get_by_id id
      | none ↦ do
        check (assert_factory_access ctx.factory_ids (some dto.factory_id))
        customer ← find_first customers ctx (λ c. c.id == dto.customer_id)
        or_throw customer not_found
        factory ← find_first factories ctx (λ f. f.id == dto.factory_id)
        or_throw factory not_found
        found ← find_many products ctx (λ p. any (λ i. i.product_id == p.id) dto.items)
        reject_if (not (length found == distinct (map (λ i. i.product_id) dto.items))) not_found
        insert_order dto
    ]

  -- Writes a status to an order, and the audit log.
  abbrev set_status : ℕ → SalesOrderStatus → Action SalesOrder
  set_status id next = do
    updated ← update sales_orders ctx (λ o. o.id == id) (λ o. record o { status = next })
    log ctx Schema.AuditAction.update Schema.sales_order id
    pure updated

  unfoldable pub advance_to : ℕ → SalesOrderStatus → Action SalesOrder
  advance_to id next = do
    existing ← get_by_id id
    check (assert_valid_transition manual_transitions existing.status next)
    set_status id next

  unfoldable pub complete : ℕ → Action SalesOrder
  complete id = do
    existing ← get_by_id id
    check (assert_valid_transition manual_transitions existing.status completed)
    items ← items_of id
    reject_if (any (λ i. ltb i.delivered_qty i.quantity) items) bad_request
    set_status id completed

  unfoldable pub cancel : ℕ → Action SalesOrder
  cancel id = do
    existing ← get_by_id id
    check (assert_valid_transition manual_transitions existing.status cancelled)
    set_status id cancelled

  unfoldable pub update_status : ℕ → SalesOrderStatus → Action SalesOrder
  update_status id cancelled = cancel id
  update_status id completed = complete id
  update_status id dispatched = throw bad_request
  update_status id draft = throw bad_request
  update_status id next = advance_to id next
