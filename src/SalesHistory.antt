-- ===== src/SalesHistory.antt =====
-- The requests that move sales orders, one after another in any order: status changes
-- (apps/api/src/sales/sales.service.ts) and dispatches (apps/api/src/dispatch/dispatch.service.ts).
use abyte_tex.Base.{ℕ, ◌≡◌, refl, ◌∙◌, ap, true, false, every, filter, filter-append}
use abyte_tex.Context.{TenantRequestContext}
use abyte_tex.Schema.{SalesOrder, SalesOrderStatus}
use abyte_tex.Database.{Prisma, Db}
use abyte_tex.Sales.{update_status}
use abyte_tex.Sales.Finality.{is_closed, is_order, is_final, update_status-final}
use abyte_tex.DispatchService.{CreateDispatchDto, create_dispatch}
use abyte_tex.DispatchService.Finality.{create_dispatch-final}

module _ ⦃P : Prisma⦄ (t id : ℕ) where
  -- A request of any user: a status change, a dispatch, or another, which at most opens an order
  -- with another identifier.
  pub data Step : Db → Db → Type 0 where
    status_step :
        (ctx : TenantRequestContext) (id' : ℕ) (target : SalesOrderStatus) {db : Db}
        → Step db (update_status ctx id' target db).1
    dispatch_step :
        (ctx : TenantRequestContext) (dto : CreateDispatchDto) (user_id : ℕ) {db : Db}
        → Step db (create_dispatch ctx dto user_id db).1
    order_step :
        (o : SalesOrder) {db db' : Db}
        → is_order t id o ≡ false
        → db'.sales_orders ≡ P.create o db.sales_orders
        → Step db db'
    other_step : {db db' : Db} → db'.sales_orders ≡ db.sales_orders → Step db db'

  pub data Steps : Db → Db → Type 0 where
    done : {db : Db} → Steps db db
    next : {db db' db'' : Db} → Step db db' → Steps db' db'' → Steps db db''

  Step-final :
      {db db' : Db}
      → Step db db'
      → is_final t id db.sales_orders ≡ true
      → filter (is_order t id) db'.sales_orders ≡ filter (is_order t id) db.sales_orders
  Step-final (Step.status_step ctx id' target {db}) h = update_status-final ctx id' db t id target h
  Step-final (Step.dispatch_step ctx dto user_id {db}) h =
      create_dispatch-final ctx t id (filter (is_order t id) db.sales_orders) h dto user_id db refl
  Step-final (Step.order_step o {db} new e) h =
      ap (filter (is_order t id)) (e ∙ P.create_lem o db.sales_orders)
      ∙ filter-append (is_order t id) o db.sales_orders new
  Step-final (Step.other_step e) h = ap (filter (is_order t id)) e

  -- A COMPLETED or CANCELLED order stays as it is: whatever status changes and dispatches the users
  -- of any tenants ask for, in whatever order and whichever of them are refused, and if other
  -- requests at most open orders with other identifiers, the rows of the order are as they were.
  pub Steps-final :
      {db db' : Db}
      → Steps db db'
      → is_final t id db.sales_orders ≡ true
      → filter (is_order t id) db'.sales_orders ≡ filter (is_order t id) db.sales_orders
  Steps-final Steps.done h = refl
  Steps-final (Steps.next s ss) h =
      let e = Step-final s h in Steps-final ss (ap (every (λ o. is_closed o.status)) e ∙ h) ∙ e
