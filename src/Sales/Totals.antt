-- ===== src/Sales/Totals.antt =====
-- The amounts of a sales order that is created, which the columns store rounded.
use abyte_tex.Base.{
  ℕ, ◌≡◌, refl, ◌∙◌, sym, ap, some, List, [], ◌∷◌, ◌==◌, truthy, arith, sum_where, pos, ℤ, ◌+ℤ◌,
  ◌-ℤ◌, ◌*◌, length, Bool, false, any, not, Bool-cases, inl, inr, sum_where-append, ==_refl,
  +ℤ_zero, +ℤ_assoc, subst, ◌&&◌, true, ◌+◌,
}
use abyte_tex.Http.{Result, ok, err, unique_violation}
use abyte_tex.Context.{TenantRequestContext}
use abyte_tex.Schema
use abyte_tex.Schema.{SalesOrder, SalesOrderItem}
use abyte_tex.Database.{
  Prisma, Db, Action, ◌>>=◌, ◌>>◌, pure, for_each, create, create_unique, log, sales_order_items,
  sales_orders, IsRounded,
}
use abyte_tex.Database.Laws.{Ensures, bind_ok, bind_err, Ensures-bind, Ensures-weaken}
use abyte_tex.Database.Effects.{IsTotal, Returns, IsTotal-bind, IsTotal-for_each}
use abyte_tex.Idempotency.{record_key}
use abyte_tex.Sales.Rounding.{gross, discounts, sum_line_totals_lem, rounded_sum, IsWithin, agree}
use abyte_tex.Sales.{
  CreateSalesOrderDto, CreateSalesOrderItemDto, line_total, sum_line_totals, order_row, same_number,
  item_row, generate_order_number, insert_order,
}

-- The sum over the stored items of an order.
abbrev pub stored_total : ℕ → List SalesOrderItem → ℤ
stored_total id = sum_where (λ i. i.sales_order_id == id) (λ i. i.line_total)

module _ ⦃P : Prisma⦄ (ctx : TenantRequestContext) (t : ℕ) (e : truthy ctx.tenant_id ≡ some t) where
  abbrev insert_item : ℕ → CreateSalesOrderItemDto → Action (Unit {0})
  insert_item id i = create sales_order_items ctx (item_row id i) >>= λ _. pure tt

  -- Each item adds its line total to the order it is stored for.
  insert_item-total :
      (id : ℕ) (i : CreateSalesOrderItemDto) (db : Db)
      → Ensures
          (λ _ d.
            stored_total id d.sales_order_items
            ≡ stored_total id db.sales_order_items +ℤ P.to_cents (line_total i))
          (insert_item id i db)
  insert_item-total id i db = rw (
    e,
    P.create_lem,
    sum_where-append (λ x. x.sales_order_id == id) (λ x. x.line_total) db.sales_order_items
        (item_row id i t (P.cuid db.generated)),
    ==_refl id,
  )

  insert_items-total :
      (id : ℕ) (is : List CreateSalesOrderItemDto) (db : Db)
      → Ensures
          (λ _ d.
            stored_total id d.sales_order_items
            ≡ stored_total id db.sales_order_items +ℤ rounded_sum is)
          (for_each is (insert_item id) db)
  unfolding for_each rounded_sum
  insert_items-total id [] db = sym (+ℤ_zero (stored_total id db.sales_order_items))
  insert_items-total id (i ∷ is) db =
      Ensures-bind
        (λ _ d.
          stored_total id d.sales_order_items
          ≡ stored_total id db.sales_order_items +ℤ (P.to_cents (line_total i) +ℤ rounded_sum is))
        (insert_item id i) (λ _. for_each is (insert_item id)) db (insert_item-total id i db)
        (λ _ d1 h1.
          Ensures-weaken _ (for_each is (insert_item id) d1) (insert_items-total id is d1)
            (λ _ d2 h2.
              h2
              ∙ ap (λ x. x +ℤ rounded_sum is) h1
              ∙ +ℤ_assoc (stored_total id db.sales_order_items) (P.to_cents (line_total i))
                  (rounded_sum is)))

  -- The log and the key that follow the items.
  abbrev finish : CreateSalesOrderDto → SalesOrder → Action SalesOrder
  finish dto o =
      log ctx Schema.AuditAction.create Schema.sales_order o.id
      >> (record_key ctx Schema.sales_order_create dto.idempotency_key o.id >> pure o)

  finish-items :
      (dto : CreateSalesOrderDto) (o : SalesOrder) (db : Db)
      → Ensures (λ r d. (r ≡ o) × (d.sales_order_items ≡ db.sales_order_items)) (finish dto o db)
  unfolding record_key
  finish-items dto o db = go (finish dto o db) (ground arith) (ground arith)
    where
      go :
          (r : Result SalesOrder × Db)
          → r.0 ≡ ok o
          → r.1.sales_order_items ≡ db.sales_order_items
          → Ensures (λ r d. (r ≡ o) × (d.sales_order_items ≡ db.sales_order_items)) r
      go (ok a, d) p q = (ground arith, q)
      go (err x, d) p q = tt

  -- The number that the order is given, by the count of the tenant's orders.
  abbrev next_number : Db → ℕ
  next_number db = P.count (λ o. (o.tenant_id == t) && true) db.sales_orders + 1

  -- An order of the tenant has that number.
  abbrev is_taken : Db → Bool
  is_taken db = any (λ o. (o.tenant_id == t) && (o.order_number == next_number db)) db.sales_orders

  abbrev new_order : CreateSalesOrderDto → Db → SalesOrder
  new_order dto db = order_row dto (next_number db) t (P.cuid db.generated)

  abbrev opened : CreateSalesOrderDto → Db → Db
  opened dto db = record db {
    sales_orders = P.create (new_order dto db) db.sales_orders;
    generated = db.generated + 1;
  }

  abbrev rest : CreateSalesOrderDto → SalesOrder → Action SalesOrder
  rest dto o = for_each dto.items (insert_item o.id) >> finish dto o

  number_lem : (db : Db) → generate_order_number ctx db ≡ (ok (next_number db), db)
  unfolding generate_order_number
  number_lem db = rw e refl

  abbrev place : CreateSalesOrderDto → ℕ → Action SalesOrder
  place dto n = create_unique sales_orders same_number ctx (order_row dto n)

  place_taken :
      (dto : CreateSalesOrderDto) (db : Db)
      → is_taken db ≡ true
      → place dto (next_number db) db ≡ (err unique_violation, db)
  place_taken dto db h = rw (e, h) refl

  place_free :
      (dto : CreateSalesOrderDto) (db : Db)
      → is_taken db ≡ false
      → place dto (next_number db) db ≡ (ok (new_order dto db), opened dto db)
  place_free dto db h = rw (e, h) refl

  insert_order_taken :
      (dto : CreateSalesOrderDto) (db : Db)
      → is_taken db ≡ true
      → insert_order ctx dto db ≡ (err unique_violation, db)
  unfolding insert_order
  insert_order_taken dto db h =
      bind_ok (generate_order_number ctx) (λ n. place dto n >>= rest dto) db (number_lem db)
      ∙ bind_err (place dto (next_number db)) (rest dto) db (place_taken dto db h)

  insert_order_free :
      (dto : CreateSalesOrderDto) (db : Db)
      → is_taken db ≡ false
      → insert_order ctx dto db ≡ rest dto (new_order dto db) (opened dto db)
  unfolding insert_order
  insert_order_free dto db h =
      bind_ok (generate_order_number ctx) (λ n. place dto n >>= rest dto) db (number_lem db)
      ∙ bind_ok (place dto (next_number db)) (rest dto) db (place_free dto db h)

  rest-total :
      (dto : CreateSalesOrderDto) (o : SalesOrder) (db : Db)
      → Ensures
          (λ r d.
            (r ≡ o)
            × (stored_total o.id d.sales_order_items
                ≡ stored_total o.id db.sales_order_items +ℤ rounded_sum dto.items))
          (rest dto o db)
  rest-total dto o db =
      let R : SalesOrder → Db → Type 0 = λ r d.
        (r ≡ o)
        × (stored_total o.id d.sales_order_items
            ≡ stored_total o.id db.sales_order_items +ℤ rounded_sum dto.items) in
      Ensures-bind R (for_each dto.items (insert_item o.id)) (λ _. finish dto o) db
        (insert_items-total o.id dto.items db)
        (λ _ d1 h1.
          Ensures-weaken R (finish dto o d1) (finish-items dto o d1)
            (λ r d2 h2. (h2.0, ap (stored_total o.id) h2.1 ∙ h1)))

  rest-IsTotal : (dto : CreateSalesOrderDto) (o : SalesOrder) → IsTotal (rest dto o)
  unfolding record_key
  rest-IsTotal dto o =
      IsTotal-bind (for_each dto.items (insert_item o.id)) (λ _. finish dto o)
        (IsTotal-for_each dto.items (insert_item o.id) (λ i d. ground arith)) (λ _ d. ground arith)

  abbrev pub has_returned : Result SalesOrder → Bool
  has_returned (ok o) = true
  has_returned (err x) = false

  Returns-has_returned : (r : Result SalesOrder) → Returns r → has_returned r ≡ true
  Returns-has_returned (ok o) h = refl
  Returns-has_returned (err x) h = absurd h

  -- What a stored order and its items say of each other and of the request.
  abbrev pub Agrees : CreateSalesOrderDto → Db → SalesOrder → Db → Type 0
  Agrees dto db o d =
      IsRounded (pos (gross dto.items) -ℤ pos (1000 * discounts dto.items)) o.subtotal
      × IsWithin (length dto.items + 1) (stored_total o.id d.sales_order_items)
          (stored_total o.id db.sales_order_items +ℤ o.subtotal)
      × IsWithin 2 o.total (o.subtotal -ℤ pos o.discount +ℤ pos o.tax)

  new_order-Agrees :
      (dto : CreateSalesOrderDto) (db : Db)
      → Ensures (Agrees dto db) (rest dto (new_order dto db) (opened dto db))
  new_order-Agrees dto db =
      let o = new_order dto db in
      Ensures-weaken (Agrees dto db) (rest dto o (opened dto db)) (rest-total dto o (opened dto db))
        (λ r d h.
          let (within, total) =
            agree dto (stored_total o.id d.sales_order_items)
              (stored_total o.id db.sales_order_items) h.1 in
          subst (λ x. Agrees dto db x d) (sym h.0)
            (
              subst (λ x. IsRounded x o.subtotal) (sum_line_totals_lem dto.items)
                  (P.to_cents-IsRounded (sum_line_totals dto.items)),
              within,
              total,
            ))

  -- For a request with a tenant, an order whose checks have passed is stored unless an order of the
  -- tenant has the number that follows from their count. The amounts of a stored order agree up to
  -- the rounding of the columns: its subtotal is a nearest hundredth to its quantities at their
  -- prices less the discounts of its items, the line totals of the items stored for it grow by its
  -- subtotal up to half a hundredth for each item and for itself, and its total is the subtotal
  -- less the discount plus the tax up to one hundredth.
  pub insert_order_totals :
      (dto : CreateSalesOrderDto) (db : Db)
      → (has_returned (insert_order ctx dto db).0 ≡ not (is_taken db))
        × Ensures (Agrees dto db) (insert_order ctx dto db)
  insert_order_totals dto db = elim (Bool-cases (is_taken db)) [
    | inl h ↦ rw (insert_order_taken dto db h, h) (refl, tt)
    | inr h ↦
        rw (insert_order_free dto db h, h)
          (
            Returns-has_returned (rest dto (new_order dto db) (opened dto db)).0
                (rest-IsTotal dto (new_order dto db) (opened dto db)),
            new_order-Agrees dto db,
          )
  ]
