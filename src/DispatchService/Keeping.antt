-- ===== src/DispatchService/Keeping.antt =====
-- What a dispatch keeps if its parts keep it.
use abyte_tex.Base.{ℕ, Option, none, some, truthy, arith}
use abyte_tex.Http.{conflict}
use abyte_tex.Context.{TenantRequestContext}
use abyte_tex.Schema
use abyte_tex.Schema.{Dispatch, IdempotencyScope}
use abyte_tex.Database.{Prisma, Db, pure, transaction, or_throw, log, Action, ◌>>=◌, ◌>>◌, for_each}
use abyte_tex.Database.Laws.{Ensures, Ensures-bind, Ensures-transaction}
use abyte_tex.Database.Effects.{IsReading, IsReading-Ensures}
use abyte_tex.Idempotency.{check_key, record_key}
use abyte_tex.DispatchService.{
  CreateDispatchDto, get_by_id, open_dispatch, open_item, issue_item, roll_forward, ship,
  check_dispatch, dispatch_anew, create_dispatch,
}

-- An action that makes of one invariant another, if it returns.
abbrev pub Leads : {A : Type 0} → (Db → Type 0) → (Db → Type 0) → Action A → Type 0
Leads I J m = (db : Db) → I db → Ensures (λ _ d. J d) (m db)

module _ ⦃P : Prisma⦄ (ctx : TenantRequestContext) where
  pub check_key-IsReading :
      (s : IdempotencyScope) (key : Option ℕ) → IsReading (check_key ctx s key)
  unfolding check_key
  check_key-IsReading s key db = ground arith

  pub get_by_id-IsReading : (i : ℕ) → IsReading (get_by_id ctx i)
  unfolding get_by_id
  get_by_id-IsReading i db = ground arith

  -- The dispatch of an earlier request with the key, or a new one.
  abbrev pub resume : CreateDispatchDto → ℕ → Option ℕ → Action Dispatch
  resume dto user_id k = elim (truthy k) [
    | some id ↦ get_by_id ctx id
    | none ↦ dispatch_anew ctx dto user_id
  ]

  -- The transaction keeps what its parts keep.
  module _ (dto : CreateDispatchDto) (user_id : ℕ) (J : Db → Type 0)
      (opens : Leads J J (open_dispatch ctx dto))
      (lines : (i : ℕ) → Leads J J (λ d. for_each dto.items (open_item ctx i) d))
      (issues : (i : ℕ) → Leads J J (λ d. for_each dto.items (issue_item ctx dto user_id i) d))
      (rolls : Leads J J (roll_forward ctx dto.sales_order_id)) where
    pub ship-Leads : Leads J J (ship ctx dto user_id)
    unfolding ship
    ship-Leads db h =
        let I : Dispatch → Db → Type 0 = λ _ d. J d in
        let roll = λ (c : Dispatch). roll_forward ctx dto.sales_order_id >> pure c in
        let issue = λ (c : Dispatch). for_each dto.items (issue_item ctx dto user_id c.id) in
        Ensures-bind I (open_dispatch ctx dto)
          (λ c. for_each dto.items (open_item ctx c.id) >> (issue c >> roll c)) db (opens db h)
          (λ c d1 h1.
            Ensures-bind I (for_each dto.items (open_item ctx c.id)) (λ _. issue c >> roll c) d1
              (lines c.id d1 h1)
              (λ _ d2 h2.
                Ensures-bind I (issue c) (λ _. roll c) d2 (issues c.id d2 h2)
                  (λ _ d3 h3.
                    Ensures-bind I (roll_forward ctx dto.sales_order_id) (λ _. pure c) d3
                      (rolls d3 h3) (λ _ _ k. k))))

  -- What the checks make of an invariant, the transaction and the records after it keep.
  module _ (dto : CreateDispatchDto) (user_id : ℕ) (I J : Db → Type 0)
      (weaken : (db : Db) → J db → I db) (checks : Leads I J (check_dispatch ctx dto))
      (ships : Leads J J (ship ctx dto user_id))
      (logs : (c : Dispatch)
        → Leads J J (λ d. log ctx Schema.AuditAction.create Schema.EntityType.dispatch c.id d))
      (records : (c : Dispatch)
        → Leads J J (λ d. record_key ctx Schema.dispatch_create dto.idempotency_key c.id d)) where
    dispatch_anew-Leads : Leads I I (dispatch_anew ctx dto user_id)
    unfolding dispatch_anew
    dispatch_anew-Leads db h =
        let K : Dispatch → Db → Type 0 = λ _ d. J d in
        let L : Dispatch → Db → Type 0 = λ _ d. I d in
        let record_it = λ (c : Dispatch).
          record_key ctx Schema.dispatch_create dto.idempotency_key c.id >> pure c in
        let log_it =
          λ (c : Dispatch). log ctx Schema.AuditAction.create Schema.EntityType.dispatch c.id in
        Ensures-bind L (check_dispatch ctx dto)
          (λ _. transaction (ship ctx dto user_id) >>= λ c. log_it c >> record_it c) db
          (checks db h)
          (λ _ d1 h1.
            Ensures-bind L (transaction (ship ctx dto user_id)) (λ c. log_it c >> record_it c) d1
              (Ensures-transaction K (ship ctx dto user_id) d1 (ships d1 h1))
              (λ c d2 h2.
                Ensures-bind L (log_it c) (λ _. record_it c) d2 (logs c d2 h2)
                  (λ _ d3 h3.
                    Ensures-bind L (record_key ctx Schema.dispatch_create dto.idempotency_key c.id)
                      (λ _. pure c) d3 (records c d3 h3) (λ _ d4 h4. weaken d4 h4))))

    resume-Leads : (k : Option ℕ) → Leads I I (resume dto user_id k)
    resume-Leads k db h = go (truthy k)
      where
        go :
            (o : Option ℕ)
            → Ensures
                (λ _ d. I d)
                (elim o as (λ _. Action Dispatch) [
                  | some id ↦ get_by_id ctx id
                  | none ↦ dispatch_anew ctx dto user_id
                ]
                  db)
        go none = dispatch_anew-Leads db h
        go (some i) = IsReading-Ensures I (get_by_id ctx i) db (get_by_id-IsReading i) h

    pub create_dispatch-Leads : Leads I I (create_dispatch ctx dto user_id)
    unfolding create_dispatch
    create_dispatch-Leads db h =
        let key = check_key ctx Schema.dispatch_create dto.idempotency_key in
        Ensures-bind (λ _ d. I d) (or_throw (truthy ctx.tenant_id) conflict)
          (λ _. key >>= resume dto user_id) db
          (IsReading-Ensures I (or_throw (truthy ctx.tenant_id) conflict) db (λ d. ground arith) h)
          (λ _ d1 h1.
            Ensures-bind (λ _ d. I d) key (resume dto user_id) d1
              (IsReading-Ensures I key d1
                (check_key-IsReading Schema.dispatch_create dto.idempotency_key) h1)
              (λ k d2 h2. resume-Leads k d2 h2))
