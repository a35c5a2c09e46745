-- ===== src/Inventory/Recording.antt =====
-- `recordMovement` as its callers see it: what it keeps, what it refuses, and what it does when
-- another transaction interferes.
use abyte_tex.Base.{ℕ, ◌≡◌, sym, ap, subst, truthy, inl, inr, Option-cases, arith, sum_where-append}
use abyte_tex.Http.{Error, Result, ok, err}
use abyte_tex.Context.{TenantRequestContext}
use abyte_tex.Schema.{AuditAction, EntityType}
use abyte_tex.Database.{Prisma, Db, log, pure, ◌>>◌, transaction}
use abyte_tex.Database.Laws.{Ensures, Ensures-bind, Ensures-weaken, Ensures-transaction}
use abyte_tex.Database.Effects.{Ensures-IsAtomic}
use abyte_tex.Inventory.{RecordMovementInput, apply_movement, record_movement_in, record_movement}
use abyte_tex.Inventory.Posting.{apply_movement-Posting}
use abyte_tex.Inventory.Balance.{
  IsStocked, Item, on_hand, ledger, Posting-IsStocked, Posting-on_hand,
}

-- The inventory is sound: distinct identifiers, no negative balance, and every item's balance is
-- the sum of its ledger.
pub record IsSound (db : Db) : Type 0 where
  pub stocked : IsStocked db.stock
  pub balanced : (k : Item) → on_hand k db.stock ≡ ledger k db.stock_movements

module _ ⦃P : Prisma⦄ (ctx : TenantRequestContext) where
  apply_movement-IsSound :
      (user_id : ℕ) (input : RecordMovementInput) (db : Db)
      → IsSound db
      → Ensures (λ _ db'. IsSound db') (apply_movement ctx (λ d. d) user_id input db)
  apply_movement-IsSound user_id input db h = elim (Option-cases (truthy ctx.tenant_id)) [
    | inl e ↦ unfold apply_movement in rw e tt
    | inr (t, e) ↦
        Ensures-weaken _ (apply_movement ctx (λ d. d) user_id input db)
          (apply_movement-Posting ctx t e user_id input db)
          (λ m db' p. record {
            stocked = Posting-IsStocked ctx.now t input db.stock p.0 h.stocked;
            balanced = λ k. rw (
              ap (λ (d : Db). d.stock_movements) p.2,
              P.create_lem,
              sum_where-append _ _ db.stock_movements m,
              p.1,
              Posting-on_hand ctx.now t input db.stock user_id (P.cuid db.generated) k p.0
                  h.stocked,
              h.balanced k,
            );
          })
  ]

  -- A movement keeps the inventory sound if it returns, in a caller's transaction and in one of its
  -- own.
  pub record_movement_in-IsSound :
      (user_id : ℕ) (input : RecordMovementInput) (db : Db)
      → IsSound db
      → Ensures (λ _ db'. IsSound db') (record_movement_in ctx user_id input db)
  unfolding record_movement_in
  record_movement_in-IsSound user_id input db h = elim (Option-cases (truthy ctx.tenant_id)) [
    | inl e ↦ rw e tt
    | inr (t, e) ↦ rw e (apply_movement-IsSound user_id input db h)
  ]

  record_movement-Ensures :
      (user_id : ℕ) (input : RecordMovementInput) (db : Db)
      → IsSound db
      → Ensures (λ _ db'. IsSound db') (record_movement ctx user_id input db)
  unfolding record_movement
  record_movement-Ensures user_id input db h = elim (Option-cases (truthy ctx.tenant_id)) [
    | inl e ↦ rw e tt
    | inr (t, e) ↦ rw e (
        Ensures-bind (λ _ d. IsSound d) (transaction (apply_movement ctx (λ d. d) user_id input))
          (λ m. log ctx AuditAction.create EntityType.stock_movement m.id >> pure m) db
          (Ensures-transaction _ (apply_movement ctx (λ d. d) user_id input) db
            (apply_movement-IsSound user_id input db h))
          (λ m db' k. record { stocked = k.stocked; balanced = k.balanced }))
  ]

  -- A movement that throws leaves the database as it was.
  pub record_movement_atomic :
      (user_id : ℕ) (input : RecordMovementInput) (db : Db) (x : Error)
      → (record_movement ctx user_id input db).0 ≡ err x
      → (record_movement ctx user_id input db).1 ≡ db
  unfolding record_movement
  record_movement_atomic user_id input db x h = ground arith

  -- A movement that no other transaction interferes with, whether it is made or refused, keeps the
  -- inventory sound: the identifiers of the stock rows are distinct, no balance is negative, and
  -- the balance of every item is the sum of its ledger.
  pub record_movement-IsSound :
      (user_id : ℕ) (input : RecordMovementInput) (db : Db)
      → IsSound db
      → IsSound (record_movement ctx user_id input db).1
  record_movement-IsSound user_id input db h =
      Ensures-IsAtomic IsSound (record_movement ctx user_id input) db
        (record_movement-Ensures user_id input db h) (record_movement_atomic user_id input) h

-- The soundness of the inventory rests on two tables only.
pub IsSound-same :
    (db d : Db)
    → d.stock ≡ db.stock
    → d.stock_movements ≡ db.stock_movements
    → IsSound db
    → IsSound d
IsSound-same db d p q h = record {
  stocked = subst IsStocked (sym p) h.stocked;
  balanced = λ k. rw (p, q) (h.balanced k);
}

-- A request that writes neither table keeps the inventory sound.
pub IsSound-untouched :
    {A : Type 0} (db : Db) (r : Result A × Db)
    → r.1.stock ≡ db.stock
    → r.1.stock_movements ≡ db.stock_movements
    → IsSound db
    → Ensures (λ _ d. IsSound d) r
IsSound-untouched db (ok a, d) p q h = IsSound-same db d p q h
IsSound-untouched db (err e, d) p q h = tt
