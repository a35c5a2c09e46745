-- ===== src/DispatchService/Finality.antt =====
-- An order that is COMPLETED or CANCELLED: no dispatch moves it.
use abyte_tex.Base.{
  ℕ, ◌≡◌, refl, sym, ◌∙◌, ap, subst, true, false, none, some, List, ◌&&◌, ◌==◌, truthy, every,
  filter, Option-cases, Bool-cases, inl, inr, ◌⊎◌, leb, if◌then◌else◌, arith,
}
use abyte_tex.Http.{Result, ok}
use abyte_tex.Context.{TenantRequestContext}
use abyte_tex.Workflow.{lists}
use abyte_tex.Schema
use abyte_tex.Schema.{SalesOrder, SalesOrderStatus, sales_order_status, Dispatch}
use abyte_tex.Database.{Prisma, Db, Action, log}
use abyte_tex.Database.Laws.{Ensures, Ensures-of, Ensures-bind, Ensures-for_each, Ensures-weaken}
use abyte_tex.Inventory.{RecordMovementInput, record_movement_in, apply_movement}
use abyte_tex.Inventory.Posting.{apply_movement-Posting}
use abyte_tex.Database.Effects.{Ensures-IsAtomic}
use abyte_tex.Idempotency.{record_key}
use abyte_tex.Sales.Finality.{is_closed, is_order, update-other, found-closed}
use abyte_tex.DispatchService.{
  CreateDispatchDto, DispatchItemDto, eligible_statuses, issue_input, open_dispatch, open_item,
  record_delivery, issue_item, roll_forward, ship, check_dispatch, create_dispatch,
}
use abyte_tex.DispatchService.Keeping.{Leads, ship-Leads, create_dispatch-Leads}
use abyte_tex.DispatchService.Shipping.{check_dispatch-IsReading, create_dispatch_atomic}

closed-eligible : (s : SalesOrderStatus) → is_closed s ≡ true → lists eligible_statuses s ≡ false
unfolding eligible_statuses
closed-eligible s h = ground arith

module _ ⦃P : Prisma⦄ (ctx : TenantRequestContext) (dto : CreateDispatchDto) (db : Db) where
  -- A dispatch that passes the checks found its order, in an eligible status.
  check_dispatch-eligible :
      (t : ℕ) (u : Unit {0})
      → truthy ctx.tenant_id ≡ some t
      → (check_dispatch ctx dto db).0 ≡ ok u
      → (o : SalesOrder) × (P.find_first (is_order t dto.sales_order_id) db.sales_orders ≡ some o)
        × (lists eligible_statuses o.status ≡ true)
  unfolding check_dispatch
  check_dispatch-eligible t u e r =
      elim (Option-cases (P.find_first (is_order t dto.sales_order_id) db.sales_orders)) [
        | inl f ↦ absurd (ground arith)
        | inr (o, f) ↦ (o, f, ground arith)
      ]

module _ ⦃P : Prisma⦄ (ctx : TenantRequestContext) (id : ℕ) (db : Db) where
  roll_forward_idle :
      truthy ctx.tenant_id ≡ none → (roll_forward ctx id db).1.sales_orders ≡ db.sales_orders
  unfolding roll_forward
  roll_forward_idle e = ground arith

  -- The roll-forward writes a status to the order, if to any.
  roll_forward_writes :
      (t : ℕ)
      → truthy ctx.tenant_id ≡ some t
      → (next : SalesOrderStatus) × (((roll_forward ctx id db).1.sales_orders ≡ db.sales_orders)
          ⊎ ((roll_forward ctx id db).1.sales_orders
              ≡ P.update (is_order t id) (λ o. record o { status = next }) db.sales_orders))
  unfolding roll_forward
  roll_forward_writes t e = (
    (if every (λ i. leb i.quantity i.delivered_qty)
          (P.find_many (λ i. i.sales_order_id == id) db.sales_order_items)
        then SalesOrderStatus.dispatched
        else SalesOrderStatus.ready),
    elim (Option-cases (P.find_first (is_order t id) db.sales_orders)) [
      | inl f ↦ inl (ground arith)
      | inr (o, f) ↦ inr (ground arith)
    ],
  )

module _ ⦃P : Prisma⦄ (ctx : TenantRequestContext) (t id : ℕ) (rows : List SalesOrder)
    (closed : every (λ o. is_closed o.status) rows ≡ true) (dto : CreateDispatchDto)
    (user_id : ℕ) where
  -- The rows of the order are as they were.
  abbrev Kept : Db → Type 0
  Kept db = filter (is_order t id) db.sales_orders ≡ rows

  -- The dispatch is of another order.
  abbrev Other : Type 0
  Other =
      (t' : ℕ) → truthy ctx.tenant_id ≡ some t' → (t' == t) && (dto.sales_order_id == id) ≡ false

  abbrev Checked : Db → Type 0
  Checked db = Kept db × Other

  checks : Leads Kept Checked (check_dispatch ctx dto)
  checks db k =
      Ensures-of (λ _ d. Checked d) (check_dispatch ctx dto db)
        (λ u r. (
          subst Kept (sym (check_dispatch-IsReading ctx dto db)) k,
          λ t' e. elim (Bool-cases ((t' == t) && (dto.sales_order_id == id))) [
            | inl s ↦
                let (o, f, g) = check_dispatch-eligible ctx dto db t' u e r in
                let c =
                  found-closed t id t' dto.sales_order_id db.sales_orders o s (rw k closed) f in
                absurd (ground (arith, closed-eligible o.status c))
            | inr s ↦ s
          ],
        ))

  rolls : Other → Leads Kept Kept (roll_forward ctx dto.sales_order_id)
  rolls other db k =
      Ensures-of (λ _ d. Kept d) (roll_forward ctx dto.sales_order_id db)
        (λ _ _. elim (Option-cases (truthy ctx.tenant_id)) [
          | inl e ↦ ap (filter (is_order t id)) (roll_forward_idle ctx dto.sales_order_id db e) ∙ k
          | inr (t', e) ↦
              let (next, r) = roll_forward_writes ctx dto.sales_order_id db t' e in
              elim r [
                | inl q ↦ ap (filter (is_order t id)) q ∙ k
                | inr q ↦
                    ap (filter (is_order t id)) q
                    ∙ update-other t id t' dto.sales_order_id next db.sales_orders (other t' e)
                    ∙ k
              ]
        ])

  -- An action that leaves the orders alone.
  untouched :
      {A : Type 0} (db : Db) (r : Result A × Db)
      → r.1.sales_orders ≡ db.sales_orders
      → Kept db
      → Ensures (λ _ d. Kept d) r
  untouched db r h k = Ensures-of (λ _ d. Kept d) r (λ _ _. ap (filter (is_order t id)) h ∙ k)

  moves : (input : RecordMovementInput) → Leads Kept Kept (record_movement_in ctx user_id input)
  unfolding record_movement_in
  moves input db k = elim (Option-cases (truthy ctx.tenant_id)) [
    | inl e ↦ rw e tt
    | inr (t', e) ↦ rw e (
        Ensures-weaken (λ _ d. Kept d) (apply_movement ctx (λ d. d) user_id input db)
          (apply_movement-Posting ctx t' e user_id input db)
          (λ m d p. ap (λ (x : Db). filter (is_order t id) x.sales_orders) p.2 ∙ k))
  ]

  delivers : (item : DispatchItemDto) → Leads Kept Kept (record_delivery ctx item)
  unfolding record_delivery
  delivers item db k = untouched db (record_delivery ctx item db) (ground arith) k

  issues : (i : ℕ) (item : DispatchItemDto) → Leads Kept Kept (issue_item ctx dto user_id i item)
  unfolding issue_item
  issues i item db k =
      Ensures-bind (λ _ d. Kept d) (record_movement_in ctx user_id (issue_input dto item i))
        (λ _. record_delivery ctx item) db (moves (issue_input dto item i) db k)
        (λ _ d h. delivers item d h)

  lines : (i : ℕ) (item : DispatchItemDto) → Leads Kept Kept (open_item ctx i item)
  unfolding open_item
  lines i item db k = untouched db (open_item ctx i item db) (ground arith) k

  opens : Leads Kept Kept (open_dispatch ctx dto)
  unfolding open_dispatch
  opens db k = untouched db (open_dispatch ctx dto db) (ground arith) k

  records :
      (c : Dispatch)
      → Leads Kept Kept (λ d. record_key ctx Schema.dispatch_create dto.idempotency_key c.id d)
  unfolding record_key
  records c db k =
      untouched db (record_key ctx Schema.dispatch_create dto.idempotency_key c.id db)
        (ground arith) k

  both : {A : Type 0} (m : Action A) → (Other → Leads Kept Kept m) → Leads Checked Checked m
  both m h db c = Ensures-weaken (λ _ d. Checked d) (m db) (h c.1 db c.0) (λ _ d k. (k, c.1))

  ships : Leads Checked Checked (ship ctx dto user_id)
  ships = both (ship ctx dto user_id) (λ other.
      ship-Leads ctx dto user_id Kept opens
        (λ i db k. Ensures-for_each Kept dto.items (open_item ctx i) db (lines i) k)
        (λ i db k. Ensures-for_each Kept dto.items (issue_item ctx dto user_id i) db (issues i) k)
        (rolls other))

  -- A dispatch, made or refused, leaves the rows of a final order alone.
  pub create_dispatch-final : (db : Db) → Kept db → Kept (create_dispatch ctx dto user_id db).1
  create_dispatch-final db k =
      Ensures-IsAtomic Kept (create_dispatch ctx dto user_id) db
        (create_dispatch-Leads ctx dto user_id Kept Checked (λ _ c. c.0) checks ships
          (λ c.
            both (λ d. log ctx Schema.AuditAction.create Schema.EntityType.dispatch c.id d)
              (λ _ d.
                untouched d (log ctx Schema.AuditAction.create Schema.EntityType.dispatch c.id d)
                  refl))
          (λ c.
            both (λ d. record_key ctx Schema.dispatch_create dto.idempotency_key c.id d)
              (λ _. records c))
          db k)
        (create_dispatch_atomic ctx dto user_id) k
