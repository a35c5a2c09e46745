-- ===== src/Production/Batches/Output.antt =====
-- The output of a batch: which is refused, and what it keeps.
use abyte_tex.Base.{
  ℕ, ◌≡◌, refl, Bool, true, false, Option, none, some, ◌∷◌, ◌&&◌, ◌==◌, ltb, leb, if◌then◌else◌,
  truthy, arith,
}
use abyte_tex.Http.{ok, err, bad_request}
use abyte_tex.Context.{TenantRequestContext, assert_factory_access}
use abyte_tex.Schema
use abyte_tex.Schema.{ProductionBatch, BatchStatus, ProductionOrder, MaterialConsumption}
use abyte_tex.Database.{
  Prisma, Db, Action, ◌>>=◌, ◌>>◌, pure, log, transaction, update, production_batches,
}
use abyte_tex.Database.Laws.{Ensures, Ensures-bind, Ensures-transaction}
use abyte_tex.Database.Effects.{
  IsReading, IsAtomic, IsAtomic-bind, IsAtomic-then, IsAtomic-transaction, IsReading-Ensures,
  Ensures-IsAtomic,
}
use abyte_tex.Inventory.{record_movement_in}
use abyte_tex.Inventory.Recording.{
  IsSound, IsSound-same, IsSound-untouched, record_movement_in-IsSound,
}
use abyte_tex.Production.Batches.{
  RecordBatchOutputDto, is_completed, next_status, with_output, receive_output, record_batch_output,
  get_batch_by_id, update_batch_status, unit_of, open_batch, post_output, receipt_input,
}

module _ ⦃P : Prisma⦄ (ctx : TenantRequestContext) (t : ℕ) (e : truthy ctx.tenant_id ≡ some t)
    (id : ℕ) (b : ProductionBatch) (db : Db)
    (found : P.find_first (λ r. (r.tenant_id == t) && (r.id == id)) db.production_batches ≡ some b)
    (access : assert_factory_access ctx.factory_ids (some b.factory_id) ≡ ok tt) where
  -- A completed batch takes no more output.
  record_batch_output-completed :
      (dto : RecordBatchOutputDto) (user_id : ℕ)
      → is_completed b.status ≡ true
      → record_batch_output ctx id dto user_id db ≡ (err bad_request, db)
  unfolding record_batch_output open_batch get_batch_by_id unit_of
  record_batch_output-completed dto user_id c = ground arith

  -- Output with a warehouse, recorded for a batch that is found, that the user may access, that is
  -- not COMPLETED and that has output already, writes the new figures and the next status to the
  -- batch and one audit entry, and changes nothing else: no second stock receipt is posted.
  pub record_batch_output-again :
      (dto : RecordBatchOutputDto) (user_id w : ℕ)
      → is_completed b.status ≡ false
      → (b.output_quantity == 0) ≡ false
      → truthy dto.output_warehouse_id ≡ some w
      → record_batch_output ctx id dto user_id db ≡ (
        ok (record (with_output dto ctx.now b) { status = next_status b.status }),
        record db {
          production_batches =
              P.update
                (λ r. (r.tenant_id == t) && (r.id == id))
                (λ r. record (with_output dto ctx.now r) { status = next_status b.status })
                db.production_batches;
          audit_log =
              record {
                tenant_id = ctx.tenant_id;
                user_id = ctx.user_id;
                action = Schema.AuditAction.update;
                entity_type = Schema.EntityType.production_batch;
                entity_id = id;
              }
              ∷ db.audit_log;
        },
      )
  unfolding record_batch_output open_batch post_output get_batch_by_id unit_of receive_output
  record_batch_output-again dto user_id w c o p = ground arith

  -- Setting the status of a batch that is found and that the user may access is a 400 that changes
  -- nothing if the target is COMPLETED and the batch has no output; otherwise it writes the target
  -- to the batch and one audit entry, and changes nothing else.
  pub update_batch_status_lem :
      (s : BatchStatus)
      → update_batch_status ctx id s db ≡ (
          if is_completed s && leb b.output_quantity 0 then (err bad_request, db) else (
            ok (record b { status = s }),
            record db {
              production_batches =
                  P.update
                    (λ r. (r.tenant_id == t) && (r.id == id))
                    (λ r. record r { status = s })
                    db.production_batches;
              audit_log =
                  record {
                    tenant_id = ctx.tenant_id;
                    user_id = ctx.user_id;
                    action = Schema.AuditAction.update;
                    entity_type = Schema.EntityType.production_batch;
                    entity_id = id;
                  }
                  ∷ db.audit_log;
            },
          ))
  unfolding update_batch_status get_batch_by_id
  update_batch_status_lem s = ground arith

module _ ⦃P : Prisma⦄ (ctx : TenantRequestContext) where
  receive_output-IsSound :
      (id : ℕ) (dto : RecordBatchOutputDto) (b : ProductionBatch) (unit user_id : ℕ) (db : Db)
      → IsSound db
      → Ensures (λ _ d. IsSound d) (receive_output ctx id dto b unit user_id db)
  unfolding receive_output
  receive_output-IsSound id dto b unit user_id db h = go (truthy dto.output_warehouse_id)
    where
      first : Bool
      first = ltb 0 dto.output_quantity && (b.output_quantity == 0)

      posting : ℕ → Action (Unit {0})
      posting w = record_movement_in ctx user_id (receipt_input dto b w unit id) >>= λ _. pure tt

      posted :
          (w : ℕ) (c : Bool) → Ensures (λ _ d. IsSound d) ((if c then posting w else pure tt) db)
      posted w true =
          Ensures-bind (λ _ d. IsSound d)
            (record_movement_in ctx user_id (receipt_input dto b w unit id)) (λ _. pure tt) db
            (record_movement_in-IsSound ctx user_id (receipt_input dto b w unit id) db h)
            (λ _ _ k. k)
      posted w false = h

      go :
          (o : Option ℕ)
          → Ensures
              (λ _ d. IsSound d)
              (elim o as (λ _. Action (Unit {0})) [
                | none ↦ pure tt
                | some w ↦ if first then posting w else pure tt
              ]
                db)
      go none = h
      go (some w) = posted w first

  -- The update of the batch in the transaction, which touches no stock.
  abbrev write_output : ℕ → RecordBatchOutputDto → ProductionBatch → Action ProductionBatch
  write_output id dto b =
      update production_batches ctx (λ r. r.id == id)
        (λ r. record (with_output dto ctx.now r) { status = next_status b.status })

  write_output-IsSound :
      (id : ℕ) (dto : RecordBatchOutputDto) (b : ProductionBatch) (db : Db)
      → IsSound db
      → Ensures (λ _ d. IsSound d) (write_output id dto b db)
  write_output-IsSound id dto b db h =
      IsSound-untouched db (write_output id dto b db) (ground arith) (ground arith) h

  post_output-IsSound :
      (id : ℕ) (dto : RecordBatchOutputDto) (b : ProductionBatch) (unit user_id : ℕ) (db : Db)
      → IsSound db
      → Ensures (λ _ d. IsSound d) (post_output ctx id dto b unit user_id db)
  unfolding post_output
  post_output-IsSound id dto b unit user_id db h =
      let receive = receive_output ctx id dto b unit user_id in
      Ensures-bind (λ _ d. IsSound d) (write_output id dto b) (λ u. receive >> pure u) db
        (write_output-IsSound id dto b db h)
        (λ u d1 h1.
          Ensures-bind (λ _ d. IsSound d) receive (λ _. pure u) d1
            (receive_output-IsSound id dto b unit user_id d1 h1) (λ _ _ k. k))

  open_batch-IsReading : (id : ℕ) (dto : RecordBatchOutputDto) → IsReading (open_batch ctx id dto)
  unfolding open_batch get_batch_by_id unit_of
  open_batch-IsReading id dto db = ground arith

  abbrev finish_output : ℕ → RecordBatchOutputDto → ℕ → ProductionBatch × ℕ → Action ProductionBatch
  finish_output id dto user_id (b, unit) =
      transaction (post_output ctx id dto b unit user_id) >>= λ u.
      (log ctx Schema.AuditAction.update Schema.EntityType.production_batch id >> pure u)

  record_batch_output-Ensures :
      (id : ℕ) (dto : RecordBatchOutputDto) (user_id : ℕ) (db : Db)
      → IsSound db
      → Ensures (λ _ d. IsSound d) (record_batch_output ctx id dto user_id db)
  unfolding record_batch_output
  record_batch_output-Ensures id dto user_id db h =
      Ensures-bind (λ _ d. IsSound d) (open_batch ctx id dto) (finish_output id dto user_id) db
        (IsReading-Ensures IsSound (open_batch ctx id dto) db (open_batch-IsReading id dto) h)
        (λ (b, unit) d1 h1.
          Ensures-bind (λ _ d. IsSound d) (transaction (post_output ctx id dto b unit user_id))
            (λ u. log ctx Schema.AuditAction.update Schema.EntityType.production_batch id >> pure u)
            d1
            (Ensures-transaction (λ _ d. IsSound d) (post_output ctx id dto b unit user_id) d1
              (post_output-IsSound id dto b unit user_id d1 h1))
            (λ u d2 h2.
              IsSound-same d2
                (log ctx Schema.AuditAction.update Schema.EntityType.production_batch id d2).1 refl
                refl h2))

  record_batch_output-IsAtomic :
      (id : ℕ) (dto : RecordBatchOutputDto) (user_id : ℕ)
      → IsAtomic (record_batch_output ctx id dto user_id)
  unfolding record_batch_output
  record_batch_output-IsAtomic id dto user_id =
      IsAtomic-bind (open_batch ctx id dto) (finish_output id dto user_id)
        (open_batch-IsReading id dto)
        (λ (b, unit).
          IsAtomic-then (transaction (post_output ctx id dto b unit user_id))
            (λ u. log ctx Schema.AuditAction.update Schema.EntityType.production_batch id >> pure u)
            (IsAtomic-transaction (post_output ctx id dto b unit user_id)) (λ _ _. tt))

  -- Recording output that no other transaction interferes with, whether it is done or refused,
  -- keeps the inventory sound: no balance is negative, and every balance is the sum of its ledger.
  pub record_batch_output-IsSound :
      (id : ℕ) (dto : RecordBatchOutputDto) (user_id : ℕ) (db : Db)
      → IsSound db
      → IsSound (record_batch_output ctx id dto user_id db).1
  record_batch_output-IsSound id dto user_id db h =
      Ensures-IsAtomic IsSound (record_batch_output ctx id dto user_id) db
        (record_batch_output-Ensures id dto user_id db h)
        (record_batch_output-IsAtomic id dto user_id) h
