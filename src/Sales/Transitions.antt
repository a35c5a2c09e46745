-- ===== src/Sales/Transitions.antt =====
-- The status of a sales order: what `updateStatus` does on every branch.
use abyte_tex.Base.{
  ℕ, ◌≡◌, Bool, true, false, some, List, ◌∷◌, ◌&&◌, ◌==◌, not, ltb, if◌then◌else◌, truthy, any,
  arith,
}
use abyte_tex.Http.{ok, err, bad_request}
use abyte_tex.Context.{TenantRequestContext, assert_factory_access}
use abyte_tex.Workflow.{assert_valid_transition, lists}
use abyte_tex.Schema.{
  SalesOrder, SalesOrderItem, SalesOrderStatus, sales_order_status, AuditAction, EntityType, draft,
  confirmed, production_planned, in_production, quality, ready, dispatched, completed, cancelled,
}
use abyte_tex.Database.{Prisma, Db}
use abyte_tex.Sales.{manual_transitions, get_by_id, advance_to, complete, cancel, update_status}

-- The guard against the map, which never lists a status as its own successor.
valid_lem :
    (s next : SalesOrderStatus)
    → assert_valid_transition manual_transitions s next
      ≡ (if lists (manual_transitions s) next then ok tt else err bad_request)
unfolding assert_valid_transition manual_transitions
valid_lem s next = ground arith

abbrev pub is_undelivered : SalesOrderItem → Bool
is_undelivered i = ltb i.delivered_qty i.quantity

-- Whether a status is reached by completing the order, which wants its items delivered.
abbrev pub blocked : SalesOrderStatus → List SalesOrderItem → Bool
blocked completed items = any is_undelivered items
blocked _ items = false

module _ ⦃P : Prisma⦄ (ctx : TenantRequestContext) (t : ℕ) (e : truthy ctx.tenant_id ≡ some t)
    (id : ℕ) (db : Db) (existing : SalesOrder)
    (found : P.find_first (λ o. (o.tenant_id == t) && (o.id == id)) db.sales_orders ≡ some existing)
    (access : assert_factory_access ctx.factory_ids (some existing.factory_id) ≡ ok tt) where
  -- The order's items, as the query includes them.
  abbrev pub items : List SalesOrderItem
  items = P.find_many (λ i. true && (i.sales_order_id == id)) db.sales_order_items

  abbrev pub moved : SalesOrderStatus → Db
  moved next = record db {
    sales_orders =
        P.update (λ o. (o.tenant_id == t) && (o.id == id)) (λ o. record o { status = next })
          db.sales_orders;
    audit_log =
        record {
          tenant_id = ctx.tenant_id;
          user_id = ctx.user_id;
          action = AuditAction.update;
          entity_type = EntityType.sales_order;
          entity_id = id;
        }
        ∷ db.audit_log;
  }

  get_by_id_lem : get_by_id ctx id db ≡ (ok existing, db)
  unfolding get_by_id
  get_by_id_lem = ground arith

  advance_to_lem :
      (next : SalesOrderStatus)
      → advance_to ctx id next db ≡ (
          if lists (manual_transitions existing.status) next
          then (ok (record existing { status = next }), moved next)
          else (err bad_request, db))
  unfolding advance_to
  advance_to_lem next = ground (arith, get_by_id_lem, valid_lem existing.status next)

  complete_lem : complete ctx id db ≡ (
      if lists (manual_transitions existing.status) completed && not (any is_undelivered items)
      then (ok (record existing { status = completed }), moved completed)
      else (err bad_request, db))
  unfolding complete
  complete_lem = ground (arith, get_by_id_lem, valid_lem existing.status completed)

  cancel_lem : cancel ctx id db ≡ (
      if lists (manual_transitions existing.status) cancelled
      then (ok (record existing { status = cancelled }), moved cancelled)
      else (err bad_request, db))
  unfolding cancel
  cancel_lem = ground (arith, get_by_id_lem, valid_lem existing.status cancelled)

  -- A status change of an order that is found and that the user may access succeeds exactly when
  -- the transition map lists the target for the present status and, for COMPLETED, no item of the
  -- order is short of its ordered quantity. It then writes the target status to that order and one
  -- audit entry, and changes nothing else; in every other case it is a 400 and the database is as
  -- before.
  pub update_status_lem :
      (next : SalesOrderStatus)
      → update_status ctx id next db ≡ (
          if lists (manual_transitions existing.status) next && not (blocked next items)
          then (ok (record existing { status = next }), moved next)
          else (err bad_request, db))
  unfolding update_status manual_transitions
  update_status_lem draft = ground arith
  update_status_lem confirmed = ground (arith, advance_to_lem confirmed)
  update_status_lem production_planned = ground (arith, advance_to_lem production_planned)
  update_status_lem in_production = ground (arith, advance_to_lem in_production)
  update_status_lem quality = ground (arith, advance_to_lem quality)
  update_status_lem ready = ground (arith, advance_to_lem ready)
  update_status_lem dispatched = ground arith
  update_status_lem completed = ground (arith, complete_lem)
  update_status_lem cancelled = ground (arith, cancel_lem)
