-- ===== src/Production/OrderStatus.antt =====
-- The status of a production order: what `updateOrderStatus` does on every branch.
use abyte_tex.Base.{
  ℕ, ◌≡◌, refl, Bool, true, false, none, some, List, [], ◌∷◌, ◌&&◌, ◌==◌, leb, ltb, any, not,
  if◌then◌else◌, truthy, arith,
}
use mathlib.Core.Path.{fun_ext}
use abyte_tex.Users.{is_some}
use abyte_tex.Http.{ok, err, bad_request}
use abyte_tex.Context.{TenantRequestContext, assert_factory_access}
use abyte_tex.Workflow.{assert_valid_transition, lists}
use abyte_tex.Schema.{
  ProductionOrder, ProductionBatch, ProductionOrderStatus, production_order_status, AuditAction,
  EntityType, SalesOrder, SalesOrderStatus, same_sales_order_status,
}
use abyte_tex.Database.{Prisma, Db}
use abyte_tex.Production.{
  order_transitions, lacks_output, total_output, move_order, mirrored, mirror_status,
  get_order_by_id, update_order_status,
}

valid_lem :
    (s next : ProductionOrderStatus)
    → assert_valid_transition order_transitions s next
      ≡ (if lists (order_transitions s) next then ok tt else err bad_request)
unfolding assert_valid_transition order_transitions
valid_lem s next = ground arith

abbrev pub is_start : ProductionOrderStatus → Bool
is_start ProductionOrderStatus.in_progress = true
is_start _ = false

abbrev pub is_completion : ProductionOrderStatus → Bool
is_completion ProductionOrderStatus.completed = true
is_completion _ = false

-- Some batch has output.
abbrev pub has_output : List ProductionBatch → Bool
has_output = any (λ b. ltb 0 b.output_quantity)

-- An order in a new status: a first start is dated, and a completion.
abbrev pub dated : ProductionOrderStatus → ℕ → ProductionOrder → ProductionOrder
dated next now o = record o {
  status = next;
  actual_start_date =
      if is_start next && not (is_some o.actual_start_date) then some now else o.actual_start_date;
  actual_end_date = if is_completion next then some now else o.actual_end_date;
}

total_output-has_output :
    (batches : List ProductionBatch) → leb (total_output batches) 0 ≡ not (has_output batches)
unfolding total_output
total_output-has_output [] = refl
total_output-has_output (b ∷ bs) = ground (arith, total_output-has_output bs)

lacks_output_lem :
    (next : ProductionOrderStatus) (batches : List ProductionBatch)
    → lacks_output next batches ≡ is_completion next && not (has_output batches)
unfolding lacks_output total_output
lacks_output_lem ProductionOrderStatus.completed [] = refl
lacks_output_lem ProductionOrderStatus.completed (b ∷ bs) =
    ground (arith, total_output-has_output (b ∷ bs))
lacks_output_lem _ batches = refl

move_order_lem : (next : ProductionOrderStatus) (now : ℕ) → move_order next now ≡ dated next now
unfolding move_order
move_order_lem next now = fun_ext (λ o. ground arith)

module _ ⦃P : Prisma⦄ (ctx : TenantRequestContext) (t : ℕ) (e : truthy ctx.tenant_id ≡ some t)
    (id : ℕ) (db : Db) (existing : ProductionOrder)
    (found : P.find_first (λ o. (o.tenant_id == t) && (o.id == id)) db.production_orders
      ≡ some existing)
    (access : assert_factory_access ctx.factory_ids (some existing.factory_id) ≡ ok tt) where
  abbrev pub batches : List ProductionBatch
  batches =
      P.find_many (λ b. (b.tenant_id == t) && (b.production_order_id == id)) db.production_batches

  -- The sales orders once the linked one, if it stands in `before`, is in `after`.
  abbrev pub linked_moved : SalesOrderStatus → SalesOrderStatus → List SalesOrder
  linked_moved before after = elim (truthy existing.sales_order_id) [
    | none ↦ db.sales_orders
    | some s ↦
        P.update
          (λ o. (o.tenant_id == t) && ((o.id == s) && same_sales_order_status o.status before))
          (λ o. record o { status = after }) db.sales_orders
  ]

  -- The sales orders after a move to `next`.
  abbrev pub followed : ProductionOrderStatus → List SalesOrder
  followed ProductionOrderStatus.in_progress =
      linked_moved SalesOrderStatus.production_planned SalesOrderStatus.in_production
  followed ProductionOrderStatus.completed =
      linked_moved SalesOrderStatus.in_production SalesOrderStatus.quality
  followed _ = db.sales_orders

  get_order_by_id_lem : get_order_by_id ctx id db ≡ (ok existing, db)
  unfolding get_order_by_id
  get_order_by_id_lem = ground arith

  mirror_lem :
      (next : ProductionOrderStatus) (d : Db)
      → d.sales_orders ≡ db.sales_orders
      → mirror_status ctx existing.sales_order_id next d
        ≡ (ok tt, record d { sales_orders = followed next })
  unfolding mirror_status mirrored
  mirror_lem next d same = ground arith

  -- A status change of a production order that is found and that the user may access succeeds
  -- exactly when the transition map lists the target for the present status and, for COMPLETED, some
  -- batch of the order has output. It then writes the status to that order, with the present time
  -- as the start of a first IN_PROGRESS and as the end of a COMPLETED one, moves the linked sales
  -- order from PRODUCTION_PLANNED to IN_PRODUCTION for IN_PROGRESS and from IN_PRODUCTION to QUALITY
  -- for COMPLETED if it stands there, and writes one audit entry; in every other case it is a 400
  -- and the database is as before.
  pub update_order_status_lem :
      (next : ProductionOrderStatus)
      → update_order_status ctx id next db ≡ (
          if lists (order_transitions existing.status) next
            && not (is_completion next && not (has_output batches))
          then (
            ok (dated next ctx.now existing),
            record db {
              production_orders =
                  P.update
                    (λ o. (o.tenant_id == t) && (o.id == id))
                    (dated next ctx.now)
                    db.production_orders;
              sales_orders = followed next;
              audit_log =
                  record {
                    tenant_id = ctx.tenant_id;
                    user_id = ctx.user_id;
                    action = AuditAction.update;
                    entity_type = EntityType.production_order;
                    entity_id = id;
                  }
                  ∷ db.audit_log;
            },
          )
          else (err bad_request, db))
  unfolding update_order_status
  update_order_status_lem next =
      ground
        (
          arith,
          get_order_by_id_lem,
          valid_lem existing.status next,
          lacks_output_lem next batches,
          move_order_lem next ctx.now,
          mirror_lem next
              (record db {
                production_orders =
                    P.update (λ o. (o.tenant_id == t) && (o.id == id)) (dated next ctx.now)
                      db.production_orders;
                audit_log =
                    record {
                      tenant_id = ctx.tenant_id;
                      user_id = ctx.user_id;
                      action = AuditAction.update;
                      entity_type = EntityType.production_order;
                      entity_id = id;
                    }
                    ∷ db.audit_log;
              })
              refl,
        )
        steps 10000000
