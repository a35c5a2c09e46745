-- ===== src/Sales/Finality.antt =====
-- An order that is COMPLETED or CANCELLED: no status change moves it.
use abyte_tex.Base.{
  ℕ, ◌≡◌, refl, ap, Bool, true, false, none, some, List, ◌&&◌, ◌==◌, not, truthy, every, filter,
  filter-map, every-filter, Option-cases, Bool-cases, inl, inr, arith,
}
use abyte_tex.Http.{Error, Result, ok, err, forbidden, not_found}
use abyte_tex.Context.{TenantRequestContext, assert_factory_access}
use abyte_tex.Workflow.{lists}
use abyte_tex.Schema.{
  SalesOrder, SalesOrderStatus, sales_order_status, draft, confirmed, production_planned,
  in_production, quality, ready, dispatched, completed, cancelled,
}
use abyte_tex.Database.{Prisma, Db}
use abyte_tex.Sales.{manual_transitions, get_by_id, advance_to, complete, cancel, update_status}
use abyte_tex.Sales.Transitions.{update_status_lem, blocked, items}

abbrev pub is_closed : SalesOrderStatus → Bool
is_closed completed = true
is_closed cancelled = true
is_closed _ = false

-- The order of a tenant with an identifier.
abbrev pub is_order : ℕ → ℕ → SalesOrder → Bool
is_order t id o = (o.tenant_id == t) && (o.id == id)

-- Every row of the order is closed.
abbrev pub is_final : ℕ → ℕ → List SalesOrder → Bool
is_final t id l = every (λ o. is_closed o.status) (filter (is_order t id) l)

-- The transition map leads nowhere from a closed status.
closed-manual_transitions :
    (s next : SalesOrderStatus) → is_closed s ≡ true → lists (manual_transitions s) next ≡ false
unfolding manual_transitions
closed-manual_transitions s next h = ground arith

module _ ⦃P : Prisma⦄ where
  -- Another order's row is another row.
  pub update-other :
      (t id t' id' : ℕ) (next : SalesOrderStatus) (l : List SalesOrder)
      → (t' == t) && (id' == id) ≡ false
      → filter (is_order t id) (P.update (is_order t' id') (λ o. record o { status = next }) l)
        ≡ filter (is_order t id) l
  update-other t id t' id' next l h = rw P.update_lem (
      filter-map (is_order t id) _ l
        (λ o m. elim (Bool-cases (is_order t' id' o)) [
          | inl e ↦ absurd (ground arith)
          | inr e ↦ rw e refl
        ])
        (λ o. ground arith))

  -- What is found of a final order is closed.
  pub found-closed :
      (t id t' id' : ℕ) (l : List SalesOrder) (o : SalesOrder)
      → (t' == t) && (id' == id) ≡ true
      → is_final t id l ≡ true
      → P.find_first (is_order t' id') l ≡ some o
      → is_closed o.status ≡ true
  found-closed t id t' id' l o s h f =
      let (m, e) = P.find_first-some (is_order t' id') l o f in
      every-filter (is_order t id) (λ r. is_closed r.status) l h m (ground arith)

  module _ (ctx : TenantRequestContext) (id' : ℕ) (db : Db) where
    refused :
        (next : SalesOrderStatus) (x : Error)
        → get_by_id ctx id' db ≡ (err x, db)
        → (update_status ctx id' next db).1 ≡ db
    unfolding update_status advance_to complete cancel
    refused draft x h = refl
    refused confirmed x h = ground (arith, h)
    refused production_planned x h = ground (arith, h)
    refused in_production x h = ground (arith, h)
    refused quality x h = ground (arith, h)
    refused ready x h = ground (arith, h)
    refused dispatched x h = refl
    refused completed x h = ground (arith, h)
    refused cancelled x h = ground (arith, h)

    no_tenant : truthy ctx.tenant_id ≡ none → get_by_id ctx id' db ≡ (err forbidden, db)
    unfolding get_by_id
    no_tenant e = ground arith

    no_order :
        (t' : ℕ)
        → truthy ctx.tenant_id ≡ some t'
        → P.find_first (is_order t' id') db.sales_orders ≡ none
        → get_by_id ctx id' db ≡ (err not_found, db)
    unfolding get_by_id
    no_order t' e f = ground arith

    no_access :
        (t' : ℕ) (o : SalesOrder) (x : Error)
        → truthy ctx.tenant_id ≡ some t'
        → P.find_first (is_order t' id') db.sales_orders ≡ some o
        → assert_factory_access ctx.factory_ids (some o.factory_id) ≡ err x
        → get_by_id ctx id' db ≡ (err x, db)
    unfolding get_by_id
    no_access t' o x e f a = ground arith

    -- A status change, made or refused, leaves the rows of a final order alone.
    pub update_status-final :
        (t id : ℕ) (next : SalesOrderStatus)
        → is_final t id db.sales_orders ≡ true
        → filter (is_order t id) (update_status ctx id' next db).1.sales_orders
          ≡ filter (is_order t id) db.sales_orders
    update_status-final t id next h = elim (Option-cases (truthy ctx.tenant_id)) [
      | inl e ↦ same (refused next forbidden (no_tenant e))
      | inr (t', e) ↦ elim (Option-cases (P.find_first (is_order t' id') db.sales_orders)) [
        | inl f ↦ same (refused next not_found (no_order t' e f))
        | inr (o, f) ↦
            accessed t' e o f (assert_factory_access ctx.factory_ids (some o.factory_id)) refl
      ]
    ]
      where
        same :
            (update_status ctx id' next db).1 ≡ db
            → filter (is_order t id) (update_status ctx id' next db).1.sales_orders
              ≡ filter (is_order t id) db.sales_orders
        same e = ap (λ (d : Db). filter (is_order t id) d.sales_orders) e

        accessed :
            (t' : ℕ)
            → truthy ctx.tenant_id ≡ some t'
            → (o : SalesOrder) → P.find_first (is_order t' id') db.sales_orders ≡ some o
            → (r : Result (Unit {0}))
            → assert_factory_access ctx.factory_ids (some o.factory_id) ≡ r
            → filter (is_order t id) (update_status ctx id' next db).1.sales_orders
              ≡ filter (is_order t id) db.sales_orders
        accessed t' e o f (err x) a = same (refused next x (no_access t' o x e f a))
        accessed t' e o f (ok tt) a =
            rw (update_status_lem ctx t' e id' db o f a next)
              (elim (Bool-cases ((t' == t) && (id' == id))) [
                | inl s ↦
                    rw
                      (closed-manual_transitions o.status next
                        (found-closed t id t' id' db.sales_orders o s h f))
                      refl
                | inr s ↦
                    elim (Bool-cases (
                      lists (manual_transitions o.status) next
                      && not (blocked next (items ctx t' e id' db o f a)))) [
                        | inl c ↦ rw c (update-other t id t' id' next db.sales_orders s)
                        | inr c ↦ rw c refl
                      ]
              ])
