-- ===== src/DispatchService/Shipping.antt =====
-- What the transaction of a dispatch keeps, and that a dispatch is all or nothing.
use abyte_tex.Base.{ℕ, ◌≡◌, refl, Option, none, some, List, truthy, arith}
use abyte_tex.Http.{Error, err, conflict}
use abyte_tex.Context.{TenantRequestContext}
use abyte_tex.Schema
use abyte_tex.Schema.{Dispatch, SalesOrderItem, IdempotencyScope}
use abyte_tex.Database.{
  Prisma, Db, pure, transaction, check, or_throw, log, Action, ◌>>=◌, ◌>>◌, for_each,
}
use abyte_tex.Database.Laws.{Ensures-bind, Ensures-for_each, for_each_reads}
use abyte_tex.Database.Effects.{
  IsReading, IsAtomic, IsTotal, IsReading-bind, IsAtomic-bind, IsAtomic-then, IsAtomic-transaction,
  IsReading-Ensures, Ensures-IsAtomic,
}
use abyte_tex.Idempotency.{check_key, record_key}
use abyte_tex.Quality.{assert_batch_shippable}
use abyte_tex.Inventory.{record_movement_in}
use abyte_tex.Inventory.Recording.{
  IsSound, IsSound-same, IsSound-untouched, record_movement_in-IsSound,
}
use abyte_tex.DispatchService.Keeping.{
  Leads, check_key-IsReading, get_by_id-IsReading, resume, ship-Leads, create_dispatch-Leads,
}
use abyte_tex.DispatchService.{
  CreateDispatchDto, DispatchItemDto, issue_input, get_by_id, issue_item, roll_forward, ship,
  open_item, open_dispatch, record_delivery, check_dispatch, create_dispatch, dispatch_anew,
  check_batch, check_remaining, check_items,
}

-- An action that keeps the inventory sound if it returns.
abbrev Keeps : {A : Type 0} → Action A → Type 0
Keeps = Leads IsSound IsSound

module _ ⦃P : Prisma⦄ (ctx : TenantRequestContext) where
  record_delivery-Keeps : (item : DispatchItemDto) → Keeps (record_delivery ctx item)
  unfolding record_delivery
  record_delivery-Keeps item db h =
      IsSound-untouched db (record_delivery ctx item db) (ground arith) (ground arith) h

  roll_forward-Keeps : (id : ℕ) → Keeps (roll_forward ctx id)
  unfolding roll_forward
  roll_forward-Keeps id db h =
      IsSound-untouched db (roll_forward ctx id db) (ground arith) (ground arith) h

  open_item-Keeps : (id : ℕ) (item : DispatchItemDto) → Keeps (open_item ctx id item)
  unfolding open_item
  open_item-Keeps id item db h =
      IsSound-untouched db (open_item ctx id item db) (ground arith) (ground arith) h

  open_dispatch-Keeps : (dto : CreateDispatchDto) → Keeps (open_dispatch ctx dto)
  unfolding open_dispatch
  open_dispatch-Keeps dto db h =
      IsSound-untouched db (open_dispatch ctx dto db) (ground arith) (ground arith) h

  issue_item-Keeps :
      (dto : CreateDispatchDto) (user_id i : ℕ) (item : DispatchItemDto)
      → Keeps (issue_item ctx dto user_id i item)
  unfolding issue_item
  issue_item-Keeps dto user_id i item db h =
      Ensures-bind (λ _ d. IsSound d) (record_movement_in ctx user_id (issue_input dto item i))
        (λ _. record_delivery ctx item) db
        (record_movement_in-IsSound ctx user_id (issue_input dto item i) db h)
        (λ _ d k. record_delivery-Keeps item d k)

  pub check_batch-IsReading : (item : DispatchItemDto) → IsReading (check_batch ctx item)
  unfolding check_batch assert_batch_shippable
  check_batch-IsReading item db = ground arith

  check_items-IsReading :
      (dtos : List DispatchItemDto) (items : List SalesOrderItem)
      → IsReading (check_items ctx dtos items)
  unfolding check_items
  check_items-IsReading dtos items =
      IsReading-bind (for_each dtos (λ item. check (check_remaining items item)))
        (λ _. for_each dtos (check_batch ctx))
        (λ d. for_each_reads dtos (λ item. check (check_remaining items item)) d (λ _. refl))
        (λ _ d. for_each_reads dtos (check_batch ctx) d (λ x. check_batch-IsReading x d))

  pub check_dispatch-IsReading : (dto : CreateDispatchDto) → IsReading (check_dispatch ctx dto)
  unfolding check_dispatch
  check_dispatch-IsReading dto db = grind (arith, check_items-IsReading)

  record_key-IsTotal :
      (s : IdempotencyScope) (key : Option ℕ) (i : ℕ) → IsTotal (record_key ctx s key i)
  unfolding record_key
  record_key-IsTotal s key i db = ground arith

  record_key-Keeps :
      (s : IdempotencyScope) (key : Option ℕ) (i : ℕ) → Keeps (λ d. record_key ctx s key i d)
  unfolding record_key
  record_key-Keeps s key i db h =
      IsSound-untouched db (record_key ctx s key i db) (ground arith) (ground arith) h

  finish-IsTotal :
      (dto : CreateDispatchDto) (c : Dispatch)
      → IsTotal (
          log ctx Schema.AuditAction.create Schema.EntityType.dispatch c.id
          >> (record_key ctx Schema.dispatch_create dto.idempotency_key c.id >> pure c))
  unfolding record_key
  finish-IsTotal dto c db = ground arith

  dispatch_anew-IsAtomic :
      (dto : CreateDispatchDto) (user_id : ℕ) → IsAtomic (dispatch_anew ctx dto user_id)
  unfolding dispatch_anew
  dispatch_anew-IsAtomic dto user_id =
      let finish = λ (c : Dispatch).
        log ctx Schema.AuditAction.create Schema.EntityType.dispatch c.id
        >> (record_key ctx Schema.dispatch_create dto.idempotency_key c.id >> pure c) in
      IsAtomic-bind (check_dispatch ctx dto) (λ _. transaction (ship ctx dto user_id) >>= finish)
        (check_dispatch-IsReading dto)
        (λ _.
          IsAtomic-then (transaction (ship ctx dto user_id)) finish
            (IsAtomic-transaction (ship ctx dto user_id)) (finish-IsTotal dto))

  resume-IsAtomic :
      (dto : CreateDispatchDto) (user_id : ℕ) (k : Option ℕ) → IsAtomic (resume ctx dto user_id k)
  resume-IsAtomic dto user_id k db x = go (truthy k)
    where
      resumed : Option ℕ → Action Dispatch
      resumed o = elim o [ some id ↦ get_by_id ctx id | none ↦ dispatch_anew ctx dto user_id ]

      go : (o : Option ℕ) → (resumed o db).0 ≡ err x → (resumed o db).1 ≡ db
      go none = dispatch_anew-IsAtomic dto user_id db x
      go (some i) = λ _. get_by_id-IsReading ctx i db

  -- A dispatch that throws leaves the database as it was.
  pub create_dispatch_atomic :
      (dto : CreateDispatchDto) (user_id : ℕ) (db : Db) (x : Error)
      → (create_dispatch ctx dto user_id db).0 ≡ err x
      → (create_dispatch ctx dto user_id db).1 ≡ db
  unfolding create_dispatch
  create_dispatch_atomic dto user_id =
      IsAtomic-bind (or_throw (truthy ctx.tenant_id) conflict)
        (λ _. check_key ctx Schema.dispatch_create dto.idempotency_key >>= resume ctx dto user_id)
        (λ d. ground arith)
        (λ _.
          IsAtomic-bind (check_key ctx Schema.dispatch_create dto.idempotency_key)
            (resume ctx dto user_id)
            (check_key-IsReading ctx Schema.dispatch_create dto.idempotency_key)
            (resume-IsAtomic dto user_id))

  create_dispatch-Keeps :
      (dto : CreateDispatchDto) (user_id : ℕ) → Keeps (create_dispatch ctx dto user_id)
  create_dispatch-Keeps dto user_id =
      create_dispatch-Leads ctx dto user_id IsSound IsSound (λ _ h. h)
        (λ db h.
          IsReading-Ensures IsSound (check_dispatch ctx dto) db (check_dispatch-IsReading dto) h)
        (ship-Leads ctx dto user_id IsSound (open_dispatch-Keeps dto)
          (λ i db h. Ensures-for_each IsSound dto.items (open_item ctx i) db (open_item-Keeps i) h)
          (λ i db h.
            Ensures-for_each IsSound dto.items (issue_item ctx dto user_id i) db
              (issue_item-Keeps dto user_id i) h)
          (roll_forward-Keeps dto.sales_order_id))
        (λ c db h.
          IsSound-same db (log ctx Schema.AuditAction.create Schema.EntityType.dispatch c.id db).1
            refl refl h)
        (λ c. record_key-Keeps Schema.dispatch_create dto.idempotency_key c.id)

  -- A dispatch that no other transaction interferes with, whether it is made or refused, keeps the
  -- inventory sound, whatever its items and however many draw on one row.
  pub create_dispatch-IsSound :
      (dto : CreateDispatchDto) (user_id : ℕ) (db : Db)
      → IsSound db
      → IsSound (create_dispatch ctx dto user_id db).1
  create_dispatch-IsSound dto user_id db h =
      Ensures-IsAtomic IsSound (create_dispatch ctx dto user_id) db
        (create_dispatch-Keeps dto user_id db h) (create_dispatch_atomic dto user_id) h
