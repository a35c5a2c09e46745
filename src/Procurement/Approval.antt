-- ===== src/Procurement/Approval.antt =====
-- Approval of purchase requests and purchase orders: what the status changes do on every branch.
use abyte_tex.Base.{
  ℕ, ◌≡◌, Bool, true, false, some, ◌∷◌, ◌&&◌, ◌==◌, ◌==?◌, if◌then◌else◌, truthy, arith,
}
use abyte_tex.Http.{ok, err, bad_request, forbidden}
use abyte_tex.Context.{TenantRequestContext, assert_factory_access}
use abyte_tex.Workflow.{assert_valid_transition, lists}
use abyte_tex.Schema.{
  PurchaseRequest, PurchaseOrder, PurchaseRequestStatus, PurchaseOrderStatus,
  purchase_request_status, purchase_order_status, AuditAction, EntityType,
}
use abyte_tex.Database.{Prisma, Db}
use abyte_tex.Procurement.{
  request_transitions, order_transitions, order_action, self_approval, get_request_by_id,
  submit_request, decide_request, update_request_status, get_order_by_id, change_order_status,
  update_order_status,
}

valid_request :
    (s next : PurchaseRequestStatus)
    → assert_valid_transition request_transitions s next
      ≡ (if lists (request_transitions s) next then ok tt else err bad_request)
unfolding assert_valid_transition request_transitions
valid_request s next = ground arith

valid_order :
    (s next : PurchaseOrderStatus)
    → assert_valid_transition order_transitions s next
      ≡ (if lists (order_transitions s) next then ok tt else err bad_request)
unfolding assert_valid_transition order_transitions
valid_order s next = ground arith

-- A decision is an approval or a rejection.
abbrev pub is_decision : PurchaseRequestStatus → Bool
is_decision PurchaseRequestStatus.approved = true
is_decision PurchaseRequestStatus.rejected = true
is_decision _ = false

abbrev pub request_action : PurchaseRequestStatus → AuditAction
request_action PurchaseRequestStatus.approved = AuditAction.approve
request_action PurchaseRequestStatus.rejected = AuditAction.reject
request_action _ = AuditAction.update

abbrev pub is_approval : PurchaseOrderStatus → Bool
is_approval PurchaseOrderStatus.approved = true
is_approval _ = false

-- The user who created an order, if one is known.
abbrev pub is_creator : ℕ → PurchaseOrder → Bool
is_creator user o = truthy o.created_by ==? some user

module _ ⦃P : Prisma⦄ (ctx : TenantRequestContext) (t : ℕ) (e : truthy ctx.tenant_id ≡ some t)
    (id actor : ℕ) (db : Db) where
  -- A status change of a purchase request that is found and that the user may access is a 400
  -- unless the transition map lists the target for the present status, and a 403 if it is an
  -- approval or a rejection by the user who requested the purchase; both leave the database as it
  -- was. Otherwise it writes the target to that request and one audit entry that names the
  -- decision, and changes nothing else.
  pub update_request_status_lem :
      (existing : PurchaseRequest) (next : PurchaseRequestStatus)
      → P.find_first (λ r. (r.tenant_id == t) && (r.id == id)) db.purchase_requests ≡ some existing
      → assert_factory_access ctx.factory_ids (some existing.factory_id) ≡ ok tt
      → update_request_status ctx id next actor db ≡ (
          if lists (request_transitions existing.status) next
          then (if is_decision next && (existing.requested_by == actor)
              then (err forbidden, db)
              else (
                ok (record existing { status = next }),
                record db {
                  purchase_requests =
                      P.update
                        (λ r. (r.tenant_id == t) && (r.id == id))
                        (λ r. record r { status = next })
                        db.purchase_requests;
                  audit_log =
                      record {
                        tenant_id = ctx.tenant_id;
                        user_id = ctx.user_id;
                        action = request_action next;
                        entity_type = EntityType.purchase_request;
                        entity_id = id;
                      }
                      ∷ db.audit_log;
                },
              ))
          else (err bad_request, db))
  unfolding update_request_status submit_request decide_request get_request_by_id
  update_request_status_lem existing PurchaseRequestStatus.converted f a =
      unfold request_transitions in ground arith
  update_request_status_lem existing next f a = ground (arith, valid_request existing.status next)

  get_order_by_id_lem :
      (existing : PurchaseOrder)
      → P.find_first (λ r. (r.tenant_id == t) && (r.id == id)) db.purchase_orders ≡ some existing
      → assert_factory_access ctx.factory_ids (some existing.factory_id) ≡ ok tt
      → get_order_by_id ctx id db ≡ (ok existing, db)
  unfolding get_order_by_id
  get_order_by_id_lem existing f a = ground arith

  -- A status change of a purchase order that is found and that the user may access is a 400 unless
  -- the transition map lists the target for the present status, and a 403 if the target is APPROVED
  -- and the order names the user as its creator; both leave the database as it was. Otherwise, for
  -- an order that names another creator or none too, it writes the target to that order and one
  -- audit entry, an approval for APPROVED and else an update, and changes nothing else.
  pub update_order_status_approvals :
      (existing : PurchaseOrder) (next : PurchaseOrderStatus)
      → P.find_first (λ r. (r.tenant_id == t) && (r.id == id)) db.purchase_orders ≡ some existing
      → assert_factory_access ctx.factory_ids (some existing.factory_id) ≡ ok tt
      → update_order_status ctx id next actor db ≡ (
          if lists (order_transitions existing.status) next
          then (if is_approval next && is_creator actor existing then (err forbidden, db) else (
            ok (record existing { status = next }),
            record db {
              purchase_orders =
                  P.update
                    (λ r. (r.tenant_id == t) && (r.id == id))
                    (λ r. record r { status = next })
                    db.purchase_orders;
              audit_log =
                  record {
                    tenant_id = ctx.tenant_id;
                    user_id = ctx.user_id;
                    action = if is_approval next then AuditAction.approve else AuditAction.update;
                    entity_type = EntityType.purchase_order;
                    entity_id = id;
                  }
                  ∷ db.audit_log;
            },
          ))
          else (err bad_request, db))
  unfolding update_order_status change_order_status self_approval order_action
  update_order_status_approvals existing PurchaseOrderStatus.received f a =
      unfold order_transitions in ground arith
  update_order_status_approvals existing PurchaseOrderStatus.partially_received f a =
      unfold order_transitions in ground arith
  update_order_status_approvals existing next f a =
      ground (arith, get_order_by_id_lem existing f a, valid_order existing.status next)
