-- ===== src/Inventory/Outcomes.antt =====
-- The outcome of `recordMovement` on every branch, and of `applyMovement` when another transaction
-- commits between its read and its write.
use abyte_tex.Base.{
  ℕ, ◌+◌, ◌≡◌, true, false, Option, none, some, List, ◌∷◌, truthy, if◌then◌else◌, any, pos, ltb_ℤ,
  ◌&&◌, ◌+ℤ◌, inl, inr, Option-cases, Bool-cases, ◌∙◌,
}
use abyte_tex.Http.{Error, ok, err, bad_request, unique_violation}
use abyte_tex.Context.{TenantRequestContext}
use abyte_tex.Schema.{Stock, StockMovement, AuditLog, AuditAction, EntityType}
use abyte_tex.Database.{Prisma, Db, log, pure, or_throw, ◌>>◌, ◌>>=◌, transaction}
use abyte_tex.Database.Laws.{bind_ok, bind_err, transaction_ok, transaction_err}
use abyte_tex.Inventory.{
  RecordMovementInput, stock_conflict, stock_row, overdraws, increment, increment_stock,
  settle_stock, apply_movement, record_movement, find_stock, retry_increment,
}
use abyte_tex.Inventory.Posting.{found, found-some, find_stock_lem}
use abyte_tex.Inventory.Balance.{hits, hits_self}

module _ ⦃P : Prisma⦄ (ctx : TenantRequestContext) where
  module _ (t : ℕ) (e : truthy ctx.tenant_id ≡ some t) (user_id : ℕ) (input : RecordMovementInput)
      (db : Db) where
    -- The row for the ledger, and the database when the stock row is looked for.
    abbrev posted : StockMovement
    posted = record {
      id = P.cuid db.generated;
      tenant_id = t;
      warehouse_id = input.warehouse_id;
      location_id = input.location_id;
      product_id = input.product_id;
      material_id = input.material_id;
      batch_number = input.batch_number;
      type = input.type;
      quantity = input.quantity;
      unit = input.unit;
      reference_type = input.reference_type;
      reference_id = input.reference_id;
      created_by = user_id;
    }

    -- A stock row that the movement opens.
    abbrev opened_row : ℕ → Stock
    opened_row i = record {
      id = i;
      tenant_id = t;
      warehouse_id = input.warehouse_id;
      location_id = input.location_id;
      product_id = input.product_id;
      material_id = input.material_id;
      batch_number = input.batch_number;
      quantity = input.quantity;
      unit = input.unit;
      updated_at = ctx.now;
    }

    abbrev after_posted : Db
    after_posted = record db {
      stock_movements = P.create posted db.stock_movements;
      generated = db.generated + 1;
    }

    abbrev audited : AuditLog
    audited = record {
      tenant_id = ctx.tenant_id;
      user_id = ctx.user_id;
      action = AuditAction.create;
      entity_type = EntityType.stock_movement;
      entity_id = posted.id;
    }

    -- Once the row is found, the rest of the movement is `settle_stock`.
    apply_movement_lem :
        (between : Db → Db)
        → apply_movement ctx between user_id input db
          ≡ (settle_stock ctx input (found t input db.stock) >> pure posted) (between after_posted)
    unfolding apply_movement
    apply_movement_lem between = rw e (
        bind_ok (find_stock ctx input)
          (λ o. (λ d. (ok tt, between d)) >> (settle_stock ctx input o >> pure posted)) after_posted
          (find_stock_lem ctx t e input after_posted))

    settle_drawn :
        (s r : Stock) (d : Db)
        → overdraws input.quantity s.quantity ≡ false
        → P.find_first (hits t s) d.stock ≡ some r
        → settle_stock ctx input (some s) d ≡ (
          ok (increment input.quantity ctx.now r),
          record d { stock = P.update (hits t s) (increment input.quantity ctx.now) d.stock },
        )
    unfolding settle_stock
    settle_drawn s r d o f = rw (o, e, f)

    settle_refused :
        (s : Stock) (d : Db)
        → overdraws input.quantity s.quantity ≡ true
        → settle_stock ctx input (some s) d ≡ (err bad_request, d)
    unfolding settle_stock
    settle_refused s d o = rw o

    settle_denied :
        (d : Db)
        → ltb_ℤ input.quantity (pos 0) ≡ true
        → settle_stock ctx input none d ≡ (err bad_request, d)
    unfolding settle_stock
    settle_denied d q = rw q

    settle_opened :
        (d : Db)
        → ltb_ℤ input.quantity (pos 0) ≡ false
        → any (stock_conflict (stock_row input ctx.now t (P.cuid d.generated))) d.stock ≡ false
        → settle_stock ctx input none d ≡ (
          ok (stock_row input ctx.now t (P.cuid d.generated)),
          record d {
            stock = P.create (stock_row input ctx.now t (P.cuid d.generated)) d.stock;
            generated = d.generated + 1;
          },
        )
    unfolding settle_stock
    settle_opened d q f = rw (q, e, f)

    retry_found :
        (s r : Stock) (d : Db)
        → found t input d.stock ≡ some s
        → P.find_first (hits t s) d.stock ≡ some r
        → retry_increment ctx input d ≡ (
          ok (increment input.quantity ctx.now r),
          record d { stock = P.update (hits t s) (increment input.quantity ctx.now) d.stock },
        )
    unfolding retry_increment
    retry_found s r d f g =
        bind_ok (find_stock ctx input)
          (λ o. or_throw o unique_violation >>= λ x. increment_stock ctx x.id input.quantity) d
          (find_stock_lem ctx t e input d)
        ∙ rw (f, e, g)

    settle_merged :
        (s r : Stock) (d : Db)
        → ltb_ℤ input.quantity (pos 0) ≡ false
        → any (stock_conflict (stock_row input ctx.now t (P.cuid d.generated))) d.stock ≡ true
        → found t input d.stock ≡ some s
        → P.find_first (hits t s) d.stock ≡ some r
        → settle_stock ctx input none d ≡ (
          ok (increment input.quantity ctx.now r),
          record d { stock = P.update (hits t s) (increment input.quantity ctx.now) d.stock },
        )
    unfolding settle_stock
    settle_merged s r d q c f g = rw (q, e, c) (retry_found s r d f g)

    apply_movement_ok :
        (between : Db → Db) (o : Option Stock) {r : Stock} {d' : Db}
        → found t input db.stock ≡ o
        → settle_stock ctx input o (between after_posted) ≡ (ok r, d')
        → apply_movement ctx between user_id input db ≡ (ok posted, d')
    apply_movement_ok between o f h =
        apply_movement_lem between
        ∙ rw f (bind_ok (settle_stock ctx input o) (λ _. pure posted) (between after_posted) h)

    apply_movement_err :
        (o : Option Stock) {x : Error} {d' : Db}
        → found t input db.stock ≡ o
        → settle_stock ctx input o after_posted ≡ (err x, d')
        → apply_movement ctx (λ d. d) user_id input db ≡ (err x, d')
    apply_movement_err o f h =
        apply_movement_lem (λ d. d)
        ∙ rw f (bind_err (settle_stock ctx input o) (λ _. pure posted) after_posted h)

    record_movement_ok :
        (d' : Db)
        → apply_movement ctx (λ d. d) user_id input db ≡ (ok posted, d')
        → record_movement ctx user_id input db
          ≡ (ok posted, record d' { audit_log = audited ∷ d'.audit_log })
    unfolding record_movement
    record_movement_ok d' h = rw e (
        bind_ok (transaction (apply_movement ctx (λ d. d) user_id input))
          (λ m. log ctx AuditAction.create EntityType.stock_movement m.id >> pure m) db
          (transaction_ok (apply_movement ctx (λ d. d) user_id input) db h))

    record_movement_err :
        {x : Error} {d' : Db}
        → apply_movement ctx (λ d. d) user_id input db ≡ (err x, d')
        → record_movement ctx user_id input db ≡ (err x, db)
    unfolding record_movement
    record_movement_err h = rw e (
        bind_err (transaction (apply_movement ctx (λ d. d) user_id input))
          (λ m. log ctx AuditAction.create EntityType.stock_movement m.id >> pure m) db
          (transaction_err (apply_movement ctx (λ d. d) user_id input) db h))

    -- The row that was found still stands when it is incremented.
    stands :
        (s : Stock) (l : List Stock)
        → found t input l ≡ some s
        → (r : Stock) × (P.find_first (hits t s) l ≡ some r)
    stands s l f =
        let (m, fits) = found-some t input l s f in
        elim (Option-cases (P.find_first (hits t s) l)) [
          | inl n ↦ cc (hits_self t input s fits, P.find_first-none (hits t s) l s n m)
          | inr x ↦ x
        ]

    -- Where a stock row is found, the movement of a request with a tenant is refused with a 400 and
    -- leaves no trace if its delta is negative and exceeds the row's balance; else the row's
    -- balance moves by the delta, the movement enters the ledger and the audit log, and nothing
    -- else changes.
    pub record_movement_of_some :
        (s : Stock)
        → found t input db.stock ≡ some s
        → record_movement ctx user_id input db ≡ (
            if ltb_ℤ input.quantity (pos 0) && ltb_ℤ (s.quantity +ℤ input.quantity) (pos 0)
            then (err bad_request, db)
            else (
              ok posted,
              record after_posted {
                stock =
                    P.update
                      (hits t s)
                      (λ r. record r {
                        quantity = r.quantity +ℤ input.quantity;
                        updated_at = ctx.now;
                      })
                      db.stock;
                audit_log = audited ∷ db.audit_log;
              },
            ))
    record_movement_of_some s f = elim (Bool-cases (overdraws input.quantity s.quantity)) [
      | inl o ↦
          rw o
            (record_movement_err (apply_movement_err (some s) f (settle_refused s after_posted o)))
      | inr o ↦
          let (r, g) = stands s db.stock f in
          rw o (
            record_movement_ok _
              (apply_movement_ok (λ d. d) (some s) f (settle_drawn s r after_posted o g)))
    ]

    -- Where no stock row is found and none has the key or the identity of a new one, an outgoing
    -- movement of a request with a tenant is refused with a 400 and leaves no trace; any other
    -- opens a row with its quantity, enters the ledger and the audit log, and changes nothing else.
    pub record_movement_of_none :
        found t input db.stock ≡ none
        → any (stock_conflict (opened_row (P.cuid (db.generated + 1)))) db.stock ≡ false
        → record_movement ctx user_id input db ≡ (
            if ltb_ℤ input.quantity (pos 0) then (err bad_request, db) else (
              ok posted,
              record after_posted {
                stock = P.create (opened_row (P.cuid (db.generated + 1))) db.stock;
                generated = db.generated + 1 + 1;
                audit_log = audited ∷ db.audit_log;
              },
            ))
    record_movement_of_none f free = elim (Bool-cases (ltb_ℤ input.quantity (pos 0))) [
      | inl q ↦
          rw q (record_movement_err (apply_movement_err none f (settle_denied after_posted q)))
      | inr q ↦ rw q (
          record_movement_ok _
            (apply_movement_ok (λ d. d) none f (settle_opened after_posted q free)))
    ]

    -- The concurrent creation race, in a transaction that goes on after the violation of a unique
    -- index: where no row was found, the delta is not negative, and by the time of the write
    -- another transaction has left a row that conflicts with the new one and a row that the
    -- movement finds, the movement adds its delta to the row that it finds.
    pub apply_movement_merges :
        (between : Db → Db) (s : Stock)
        → found t input db.stock ≡ none
        → ltb_ℤ input.quantity (pos 0) ≡ false
        → any
            (stock_conflict (stock_row input ctx.now t (P.cuid (between after_posted).generated)))
            (between after_posted).stock
          ≡ true
        → found t input (between after_posted).stock ≡ some s
        → apply_movement ctx between user_id input db ≡ (
          ok posted,
          record (between after_posted) {
            stock =
                P.update (hits t s) (increment input.quantity ctx.now) (between after_posted).stock;
          },
        )
    apply_movement_merges between s f q c g =
        let (r, h) = stands s (between after_posted).stock g in
        apply_movement_ok between none f (settle_merged s r (between after_posted) q c g h)

    -- The delta is compared with the balance as it was first read: where a row was found that
    -- covers it, and the row is still there after what another transaction commits in between, the
    -- row is incremented, whatever its balance is by then.
    pub apply_movement_stale :
        (between : Db → Db) (s r : Stock)
        → found t input db.stock ≡ some s
        → overdraws input.quantity s.quantity ≡ false
        → P.find_first (hits t s) (between after_posted).stock ≡ some r
        → apply_movement ctx between user_id input db ≡ (
          ok posted,
          record (between after_posted) {
            stock =
                P.update (hits t s) (increment input.quantity ctx.now) (between after_posted).stock;
          },
        )
    apply_movement_stale between s r f o g =
        apply_movement_ok between (some s) f (settle_drawn s r (between after_posted) o g)
