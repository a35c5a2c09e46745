-- ===== src/DispatchService/Checks.antt =====
-- What a dispatch that goes through has passed.
use abyte_tex.Base.{
  ℕ, ◌≡◌, refl, true, false, none, some, List, ◌&&◌, ◌==◌, ◌+◌, leb, truthy, Memᴰ, arith,
  if◌then◌else◌, subst, sym,
}
use abyte_tex.Http.{ok, err, bad_request}
use abyte_tex.Context.{TenantRequestContext}
use abyte_tex.Workflow.{lists}
use abyte_tex.Schema
use abyte_tex.Schema.{
  SalesOrder, SalesOrderItem, SalesOrderStatus, sales_order_status, ProductionBatch, Dispatch,
}
use abyte_tex.Database.{Prisma, Db, ◌>>=◌, ◌>>◌, pure, check, for_each, transaction, log}
use abyte_tex.Database.Laws.{for_each_reads}
use abyte_tex.Database.Effects.{Returns, Returns-bind, Returns-for_each}
use abyte_tex.Idempotency.{check_key, record_key}
use abyte_tex.Quality.{is_hold, assert_batch_shippable}
use abyte_tex.DispatchService.{
  CreateDispatchDto, DispatchItemDto, eligible_statuses, find_item, check_remaining, check_batch,
  check_items, check_dispatch, dispatch_anew, create_dispatch, ship,
}
use abyte_tex.DispatchService.Shipping.{check_batch-IsReading, check_dispatch-IsReading}

-- The quantity check passes exactly when the quantity fits into what is undelivered of the line.
pub check_remaining_iff :
    (items : List SalesOrderItem) (item : DispatchItemDto) (id : ℕ) (i : SalesOrderItem)
    → truthy item.sales_order_item_id ≡ some id
    → find_item id items ≡ some i
    → check_remaining items item
      ≡ (if leb (i.delivered_qty + item.quantity) i.quantity then ok tt else err bad_request)
unfolding check_remaining
check_remaining_iff items item id i e f = ground arith

module _ ⦃P : Prisma⦄ (ctx : TenantRequestContext) (t : ℕ) (e : truthy ctx.tenant_id ≡ some t)
    (dto : CreateDispatchDto) (user_id : ℕ) (db : Db) (no_key : truthy dto.idempotency_key ≡ none)
    (returned : Returns (create_dispatch ctx dto user_id db).0) where
  -- The lines of the order that the request names.
  abbrev lines : List SalesOrderItem
  lines = P.find_many (λ i. i.sales_order_id == dto.sales_order_id) db.sales_order_items

  anew_returned : Returns (dispatch_anew ctx dto user_id db).0
  unfolding create_dispatch check_key
  anew_returned = ground arith

  checked : Returns (check_dispatch ctx dto db).0
  unfolding dispatch_anew
  checked =
      let finish = λ (c : Dispatch).
        log ctx Schema.AuditAction.create Schema.EntityType.dispatch c.id
        >> (record_key ctx Schema.dispatch_create dto.idempotency_key c.id >> pure c) in
      let (u, p, k) =
        Returns-bind (check_dispatch ctx dto) (λ _. transaction (ship ctx dto user_id) >>= finish)
          db (check_dispatch-IsReading ctx dto) anew_returned in
      subst (λ r. Returns r.0) (sym p) tt

  cleared : Returns (check_items ctx dto.items lines db).0
  unfolding check_dispatch
  cleared = ground (arith, checked)

  -- When a dispatch without an idempotency key returns, the sales order that is found for it had an
  -- eligible status, which READY alone is.
  pub create_dispatch-eligible :
      (o : SalesOrder)
      → P.find_first (λ r. (r.tenant_id == t) && (r.id == dto.sales_order_id)) db.sales_orders
        ≡ some o
      → lists eligible_statuses o.status ≡ true
  unfolding check_dispatch
  create_dispatch-eligible o f = ground (arith, checked)

  passed :
      (item : DispatchItemDto)
      → Memᴰ item dto.items
      → Returns (check_remaining lines item) × Returns (check_batch ctx item db).0
  unfolding check_items
  passed item m =
      let (u, p, k) =
        Returns-bind (for_each dto.items (λ x. check (check_remaining lines x)))
          (λ _. for_each dto.items (check_batch ctx)) db
          (λ d. for_each_reads dto.items (λ x. check (check_remaining lines x)) d (λ _. refl))
          cleared in
      (
        Returns-for_each dto.items (λ x. check (check_remaining lines x)) db item (λ _ _. refl) m
            (subst (λ r. Returns r.0) (sym p) tt),
        Returns-for_each dto.items (check_batch ctx) db item (check_batch-IsReading ctx) m k,
      )

  -- When a dispatch without an idempotency key returns, the quantity of each of its items that
  -- names a line of the order was at most what was undelivered of that line when the dispatch
  -- began.
  pub create_dispatch-fits :
      (item : DispatchItemDto) (id : ℕ) (i : SalesOrderItem)
      → Memᴰ item dto.items
      → truthy item.sales_order_item_id ≡ some id
      → find_item id lines ≡ some i
      → leb (i.delivered_qty + item.quantity) i.quantity ≡ true
  create_dispatch-fits item id i m p f =
      ground (arith, (passed item m).0, check_remaining_iff lines item id i p f)

  -- When a dispatch without an idempotency key returns, the batch that is found for a batch number
  -- of one of its items was not on hold when the dispatch began.
  pub create_dispatch-not_held :
      (item : DispatchItemDto) (n : ℕ) (b : ProductionBatch)
      → Memᴰ item dto.items
      → truthy item.batch_number ≡ some n
      → P.find_first (λ r. (r.tenant_id == t) && (r.batch_number == n)) db.production_batches
        ≡ some b
      → is_hold b.status ≡ false
  unfolding check_batch assert_batch_shippable
  create_dispatch-not_held item n b m p f = ground (arith, (passed item m).1)
