-- ===== src/StockHistory.antt =====
-- The requests that move stock, one after another in any order: manual movements and transfers
-- (apps/api/src/inventory/inventory.service.ts), dispatches (apps/api/src/dispatch/
-- dispatch.service.ts), accepted receipts (apps/api/src/procurement/procurement.service.ts), output
-- and consumption of batches (apps/api/src/production/production.service.ts).
use abyte_tex.Base.{ℕ, ◌≡◌, refl, []}
use abyte_tex.Context.{TenantRequestContext}
use abyte_tex.Database.{Prisma, Db}
use abyte_tex.Inventory.Recording.{IsSound, IsSound-same, record_movement-IsSound}
use abyte_tex.Inventory.Transfer.{
  RecordMovementDto, TransferStockDto, manual_input, post_movement, transfer_stock,
}
use abyte_tex.Inventory.Transfer.Recording.{transfer_stock-IsSound}
use abyte_tex.DispatchService.{CreateDispatchDto, create_dispatch}
use abyte_tex.DispatchService.Shipping.{create_dispatch-IsSound}
use abyte_tex.Procurement.Receipts.{accept_goods_receipt}
use abyte_tex.Procurement.Receipts.Acceptance.{accept_goods_receipt-IsSound}
use abyte_tex.Production.Batches.{
  RecordBatchOutputDto, record_batch_output, RecordMaterialConsumptionDto, record_consumption,
}
use abyte_tex.Production.Batches.Output.{record_batch_output-IsSound}
use abyte_tex.Production.Batches.Consumption.{record_consumption-IsSound}

module _ ⦃P : Prisma⦄ where
  -- The databases that requests of any users lead to, whether they return or throw.
  pub data Reachable : Db → Type 0 where
    -- No stock was ever moved.
    start : (db : Db) → db.stock ≡ [] → db.stock_movements ≡ [] → Reachable db
    move :
        (ctx : TenantRequestContext) (user_id : ℕ) (dto : RecordMovementDto) {db : Db}
        → Reachable db
        → Reachable (post_movement ctx user_id dto db).1
    transfer :
        (ctx : TenantRequestContext) (user_id : ℕ) (dto : TransferStockDto) {db : Db}
        → Reachable db
        → Reachable (transfer_stock ctx user_id dto db).1
    dispatch :
        (ctx : TenantRequestContext) (dto : CreateDispatchDto) (user_id : ℕ) {db : Db}
        → Reachable db
        → Reachable (create_dispatch ctx dto user_id db).1
    accept :
        (ctx : TenantRequestContext) (id user_id : ℕ) {db : Db}
        → Reachable db
        → Reachable (accept_goods_receipt ctx id user_id db).1
    output :
        (ctx : TenantRequestContext) (id : ℕ) (dto : RecordBatchOutputDto) (user_id : ℕ) {db : Db}
        → Reachable db
        → Reachable (record_batch_output ctx id dto user_id db).1
    consume :
        (ctx : TenantRequestContext) (dto : RecordMaterialConsumptionDto) (user_id : ℕ) {db : Db}
        → Reachable db
        → Reachable (record_consumption ctx dto user_id db).1
    -- Any request that writes neither the stock nor its ledger.
    elsewhere :
        (db' : Db) {db : Db}
        → db'.stock ≡ db.stock
        → db'.stock_movements ≡ db.stock_movements
        → Reachable db
        → Reachable db'

  none-IsSound : (db : Db) → db.stock ≡ [] → db.stock_movements ≡ [] → IsSound db
  none-IsSound db p q = record {
    stocked = rw p (record { unique = tt; nonneg = tt });
    balanced = λ k. rw (p, q) refl;
  }

  -- Whatever requests move stock, in whatever order and for whatever users, and whichever of them
  -- are refused: from a database without stock and movements on, no balance is ever negative, the
  -- identifiers of the stock rows are distinct, and the balance of every item is the sum of its
  -- ledger, if each request runs without another in between.
  pub Reachable-IsSound : {db : Db} → Reachable db → IsSound db
  unfolding post_movement
  Reachable-IsSound (Reachable.start db p q) = none-IsSound db p q
  Reachable-IsSound (Reachable.move ctx user_id dto {db} r) =
      record_movement-IsSound ctx user_id (manual_input dto) db (Reachable-IsSound r)
  Reachable-IsSound (Reachable.transfer ctx user_id dto {db} r) =
      transfer_stock-IsSound ctx user_id dto db (Reachable-IsSound r)
  Reachable-IsSound (Reachable.dispatch ctx dto user_id {db} r) =
      create_dispatch-IsSound ctx dto user_id db (Reachable-IsSound r)
  Reachable-IsSound (Reachable.accept ctx id user_id {db} r) =
      accept_goods_receipt-IsSound ctx id user_id db (Reachable-IsSound r)
  Reachable-IsSound (Reachable.output ctx id dto user_id {db} r) =
      record_batch_output-IsSound ctx id dto user_id db (Reachable-IsSound r)
  Reachable-IsSound (Reachable.consume ctx dto user_id {db} r) =
      record_consumption-IsSound ctx dto user_id db (Reachable-IsSound r)
  Reachable-IsSound (Reachable.elsewhere db' {db} p q r) =
      IsSound-same db db' p q (Reachable-IsSound r)
