-- ===== src/Inventory/Transfer/Recording.antt =====
-- What transfers and manual movements keep, and which way a manual movement moves the stock.
use abyte_tex.Base.{ℕ, ◌≡◌, refl, Bool, if◌then◌else◌, ℤ, neg, abs, arith}
use abyte_tex.Http.{Error, err}
use abyte_tex.Context.{TenantRequestContext}
use abyte_tex.Schema
use abyte_tex.Schema.{StockMovement}
use abyte_tex.Database.{Prisma, Db, Action, ◌>>=◌, ◌>>◌, pure, transaction, log}
use abyte_tex.Database.Laws.{Ensures, Ensures-bind, Ensures-transaction}
use abyte_tex.Database.Effects.{IsAtomic-then, IsAtomic-transaction, Ensures-IsAtomic}
use abyte_tex.Inventory.{record_movement_in}
use abyte_tex.Inventory.Recording.{IsSound, IsSound-same, record_movement_in-IsSound}
use abyte_tex.Inventory.Transfer.{
  ManualMovementType, signed_quantity, TransferStockDto, out_input, in_input, move, transfer_stock,
}

-- The sign of a manual movement: an issue, and an adjustment that decreases, takes the magnitude
-- away, and every other movement adds it, whatever the sign of the number entered.
signed_quantity_lem :
    (type : ManualMovementType) (decrease : Bool) (q : ℤ)
    → signed_quantity type decrease q ≡ elim type [
      | ManualMovementType.issue ↦ neg (abs q)
      | ManualMovementType.adjustment ↦ if decrease then neg (abs q) else abs q
      | ManualMovementType.receive ↦ abs q
      | ManualMovementType.return_ ↦ abs q
    ]
unfolding signed_quantity
signed_quantity_lem type decrease q = ground arith

module _ ⦃P : Prisma⦄ (ctx : TenantRequestContext) where
  move-IsSound :
      (user_id : ℕ) (input : TransferStockDto) (db : Db)
      → IsSound db
      → Ensures (λ _ d. IsSound d) (move ctx user_id input db)
  unfolding move
  move-IsSound user_id input db h =
      let out = record_movement_in ctx user_id (out_input input) in
      let arrive = record_movement_in ctx user_id (in_input input) in
      Ensures-bind (λ _ d. IsSound d) out (λ a. arrive >>= λ b. pure (a, b)) db
        (record_movement_in-IsSound ctx user_id (out_input input) db h)
        (λ a d1 h1.
          Ensures-bind (λ _ d. IsSound d) arrive (λ b. pure (a, b)) d1
            (record_movement_in-IsSound ctx user_id (in_input input) d1 h1) (λ _ _ k. k))

  abbrev finish : StockMovement × StockMovement → Action StockMovement
  finish (a, b) =
      log ctx Schema.AuditAction.create Schema.EntityType.stock_movement a.id
      >> (log ctx Schema.AuditAction.create Schema.EntityType.stock_movement b.id >> pure b)

  transfer_stock-Ensures :
      (user_id : ℕ) (input : TransferStockDto) (db : Db)
      → IsSound db
      → Ensures (λ _ d. IsSound d) (transfer_stock ctx user_id input db)
  unfolding transfer_stock
  transfer_stock-Ensures user_id input db h =
      Ensures-bind (λ _ d. IsSound d) (transaction (move ctx user_id input)) finish db
        (Ensures-transaction (λ _ d. IsSound d) (move ctx user_id input) db
          (move-IsSound user_id input db h))
        (λ (a, b) d k. IsSound-same d (finish (a, b) d).1 refl refl k)

  -- A transfer that throws leaves the database as it was.
  pub transfer_stock_atomic :
      (user_id : ℕ) (input : TransferStockDto) (db : Db) (x : Error)
      → (transfer_stock ctx user_id input db).0 ≡ err x
      → (transfer_stock ctx user_id input db).1 ≡ db
  unfolding transfer_stock
  transfer_stock_atomic user_id input =
      IsAtomic-then (transaction (move ctx user_id input)) finish
        (IsAtomic-transaction (move ctx user_id input)) (λ _ _. tt)

  -- A transfer that no other transaction interferes with, whether it is made or refused, keeps the
  -- inventory sound: no balance is negative, and every balance is the sum of its ledger.
  pub transfer_stock-IsSound :
      (user_id : ℕ) (input : TransferStockDto) (db : Db)
      → IsSound db
      → IsSound (transfer_stock ctx user_id input db).1
  transfer_stock-IsSound user_id input db h =
      Ensures-IsAtomic IsSound (transfer_stock ctx user_id input) db
        (transfer_stock-Ensures user_id input db h) (transfer_stock_atomic user_id input) h
