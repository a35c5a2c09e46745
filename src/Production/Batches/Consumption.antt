-- ===== src/Production/Batches/Consumption.antt =====
-- The consumption of material: that it is all or nothing, and what it keeps.
use abyte_tex.Base.{ℕ, ◌≡◌, refl, arith}
use abyte_tex.Http.{Error, err}
use abyte_tex.Context.{TenantRequestContext}
use abyte_tex.Schema
use abyte_tex.Schema.{ProductionBatch, BatchStatus, ProductionOrder, MaterialConsumption}
use abyte_tex.Database.{
  Prisma, Db, Action, ◌>>=◌, ◌>>◌, pure, log, transaction, create, material_consumptions,
}
use abyte_tex.Database.Laws.{Ensures, Ensures-bind, Ensures-transaction}
use abyte_tex.Database.Effects.{
  IsReading, IsAtomic-bind, IsAtomic-then, IsAtomic-transaction, IsReading-Ensures,
  Ensures-IsAtomic,
}
use abyte_tex.Inventory.{record_movement_in}
use abyte_tex.Inventory.Recording.{
  IsSound, IsSound-same, IsSound-untouched, record_movement_in-IsSound,
}
use abyte_tex.Production
use abyte_tex.Production.Batches.{
  consumption_input, RecordMaterialConsumptionDto, record_consumption, consume, check_consumption,
}

module _ ⦃P : Prisma⦄ (ctx : TenantRequestContext) where
  check_consumption-IsReading :
      (dto : RecordMaterialConsumptionDto) → IsReading (check_consumption ctx dto)
  unfolding check_consumption Production.get_order_by_id
  check_consumption-IsReading dto db = ground arith

  abbrev finish_consumption : MaterialConsumption → Action MaterialConsumption
  finish_consumption c =
      log ctx Schema.AuditAction.create Schema.EntityType.material_consumption c.id >> pure c

  -- A consumption of material that throws leaves the database as it was.
  pub record_consumption_atomic :
      (dto : RecordMaterialConsumptionDto) (user_id : ℕ) (db : Db) (x : Error)
      → (record_consumption ctx dto user_id db).0 ≡ err x
      → (record_consumption ctx dto user_id db).1 ≡ db
  unfolding record_consumption
  record_consumption_atomic dto user_id =
      IsAtomic-bind (check_consumption ctx dto)
        (λ _. transaction (consume ctx dto user_id) >>= finish_consumption)
        (check_consumption-IsReading dto)
        (λ _.
          IsAtomic-then (transaction (consume ctx dto user_id)) finish_consumption
            (IsAtomic-transaction (consume ctx dto user_id)) (λ _ _. tt))

  consume-IsSound :
      (dto : RecordMaterialConsumptionDto) (user_id : ℕ) (db : Db)
      → IsSound db
      → Ensures (λ _ d. IsSound d) (consume ctx dto user_id db)
  unfolding consume
  consume-IsSound dto user_id db h =
      let row = create material_consumptions ctx (λ t i. record {
        id = i;
        production_order_id = dto.production_order_id;
        production_batch_id = dto.production_batch_id;
        material_id = dto.material_id;
        warehouse_id = dto.warehouse_id;
        quantity = dto.quantity;
        unit = dto.unit;
      }) in
      let take = record_movement_in ctx user_id (consumption_input dto) in
      Ensures-bind (λ _ d. IsSound d) row (λ c. take >> pure c) db
        (IsSound-untouched db (row db) (ground arith) (ground arith) h)
        (λ c d1 h1.
          Ensures-bind (λ _ d. IsSound d) take (λ _. pure c) d1
            (record_movement_in-IsSound ctx user_id (consumption_input dto) d1 h1) (λ _ _ k. k))

  -- A consumption of material that no other transaction interferes with, whether it is made or
  -- refused, keeps the inventory sound: no balance is negative, and every balance is the sum of its
  -- ledger.
  pub record_consumption-IsSound :
      (dto : RecordMaterialConsumptionDto) (user_id : ℕ) (db : Db)
      → IsSound db
      → IsSound (record_consumption ctx dto user_id db).1
  unfolding record_consumption
  record_consumption-IsSound dto user_id db h =
      Ensures-IsAtomic IsSound (record_consumption ctx dto user_id) db
        (Ensures-bind (λ _ d. IsSound d) (check_consumption ctx dto)
          (λ _. transaction (consume ctx dto user_id) >>= finish_consumption) db
          (IsReading-Ensures IsSound (check_consumption ctx dto) db
            (check_consumption-IsReading dto) h)
          (λ _ d1 h1.
            Ensures-bind (λ _ d. IsSound d) (transaction (consume ctx dto user_id))
              finish_consumption d1
              (Ensures-transaction (λ _ d. IsSound d) (consume ctx dto user_id) d1
                (consume-IsSound dto user_id d1 h1))
              (λ c d2 k. IsSound-same d2 (finish_consumption c d2).1 refl refl k)))
        (record_consumption_atomic dto user_id) h
