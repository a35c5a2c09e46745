-- ===== src/Procurement/Receipts/Creation.antt =====
-- The creation of a goods receipt: what it has checked, and that it is all or nothing.
use abyte_tex.Base.{
  ℕ, ◌≡◌, refl, sym, subst, true, Option, none, some, List, ◌+◌, ◌==◌, leb, any, truthy, arith,
  Memᴰ,
}
use abyte_tex.Http.{Error, err, conflict}
use abyte_tex.Context.{TenantRequestContext}
use abyte_tex.Schema
use abyte_tex.Schema.{GoodsReceipt, PurchaseOrder, PurchaseOrderItem}
use abyte_tex.Database.{Prisma, Db, Action, ◌>>=◌, ◌>>◌, pure, check, or_throw, transaction, log}
use abyte_tex.Database.Laws.{for_each_reads}
use abyte_tex.Database.Effects.{
  IsReading, IsAtomic, IsTotal, Returns, IsAtomic-bind, IsAtomic-then, IsAtomic-transaction,
  Returns-bind, Returns-for_each,
}
use abyte_tex.Idempotency.{check_key, record_key}
use abyte_tex.Procurement
use abyte_tex.Procurement.Receipts.{
  GoodsReceiptItemDto, CreateGoodsReceiptDto, or_zero, check_item, check_goods, check_receipt,
  receive_anew, receive_goods, create_goods_receipt, get_goods_receipt_by_id,
}

module _ ⦃P : Prisma⦄ (ctx : TenantRequestContext) where
  check_all-IsReading :
      (items : List PurchaseOrderItem) (dtos : List GoodsReceiptItemDto)
      → IsReading (check_goods ctx items dtos)
  unfolding check_goods
  check_all-IsReading items dtos db =
      for_each_reads dtos (λ item. check (check_item items item)) db (λ _. refl)

  check_receipt-IsReading : (dto : CreateGoodsReceiptDto) → IsReading (check_receipt ctx dto)
  unfolding check_receipt Procurement.get_order_by_id
  check_receipt-IsReading dto db = grind (arith, check_all-IsReading)

  finish-IsTotal :
      (dto : CreateGoodsReceiptDto) (r : GoodsReceipt)
      → IsTotal (
          log ctx Schema.AuditAction.create Schema.EntityType.goods_receipt r.id
          >> (record_key ctx Schema.goods_receipt_create dto.idempotency_key r.id >> pure r))
  unfolding record_key
  finish-IsTotal dto r db = ground arith

  receive_anew-IsAtomic : (dto : CreateGoodsReceiptDto) → IsAtomic (receive_anew ctx dto)
  unfolding receive_anew
  receive_anew-IsAtomic dto =
      let finish = λ (r : GoodsReceipt).
        log ctx Schema.AuditAction.create Schema.EntityType.goods_receipt r.id
        >> (record_key ctx Schema.goods_receipt_create dto.idempotency_key r.id >> pure r) in
      IsAtomic-bind (check_receipt ctx dto) (λ o. transaction (receive_goods ctx dto o) >>= finish)
        (check_receipt-IsReading dto)
        (λ o.
          IsAtomic-then (transaction (receive_goods ctx dto o)) finish
            (IsAtomic-transaction (receive_goods ctx dto o)) (finish-IsTotal dto))

  check_key-IsReading :
      (dto : CreateGoodsReceiptDto)
      → IsReading (check_key ctx Schema.goods_receipt_create dto.idempotency_key)
  unfolding check_key
  check_key-IsReading dto db = ground arith

  get_goods_receipt_by_id-IsReading : (i : ℕ) → IsReading (get_goods_receipt_by_id ctx i)
  unfolding get_goods_receipt_by_id
  get_goods_receipt_by_id-IsReading i db = ground arith

  abbrev resume : CreateGoodsReceiptDto → Option ℕ → Action GoodsReceipt
  resume dto k = elim (truthy k) [
    | some id ↦ get_goods_receipt_by_id ctx id
    | none ↦ receive_anew ctx dto
  ]

  resume-IsAtomic : (dto : CreateGoodsReceiptDto) (k : Option ℕ) → IsAtomic (resume dto k)
  resume-IsAtomic dto k db x = go (truthy k)
    where
      resumed : Option ℕ → Action GoodsReceipt
      resumed o = elim o [ some id ↦ get_goods_receipt_by_id ctx id | none ↦ receive_anew ctx dto ]

      go : (o : Option ℕ) → (resumed o db).0 ≡ err x → (resumed o db).1 ≡ db
      go none = receive_anew-IsAtomic dto db x
      go (some i) = λ _. get_goods_receipt_by_id-IsReading i db

  -- The creation of a goods receipt that throws leaves the database as it was.
  pub create_goods_receipt_atomic :
      (dto : CreateGoodsReceiptDto) (db : Db) (x : Error)
      → (create_goods_receipt ctx dto db).0 ≡ err x
      → (create_goods_receipt ctx dto db).1 ≡ db
  unfolding create_goods_receipt
  create_goods_receipt_atomic dto =
      IsAtomic-bind (or_throw (truthy ctx.tenant_id) conflict)
        (λ _. check_key ctx Schema.goods_receipt_create dto.idempotency_key >>= resume dto)
        (λ d. ground arith)
        (λ _.
          IsAtomic-bind (check_key ctx Schema.goods_receipt_create dto.idempotency_key) (resume dto)
            (check_key-IsReading dto) (resume-IsAtomic dto))

  module _ (t : ℕ) (e : truthy ctx.tenant_id ≡ some t) (dto : CreateGoodsReceiptDto) (db : Db)
      (no_key : truthy dto.idempotency_key ≡ none)
      (returned : Returns (create_goods_receipt ctx dto db).0) where
    abbrev lines : List PurchaseOrderItem
    lines = P.find_many (λ i. i.purchase_order_id == dto.purchase_order_id) db.purchase_order_items

    anew_returned : Returns (receive_anew ctx dto db).0
    unfolding create_goods_receipt check_key
    anew_returned = ground arith

    checked : Returns (check_receipt ctx dto db).0
    unfolding receive_anew
    checked =
        let finish = λ (r : GoodsReceipt).
          log ctx Schema.AuditAction.create Schema.EntityType.goods_receipt r.id
          >> (record_key ctx Schema.goods_receipt_create dto.idempotency_key r.id >> pure r) in
        let (o, p, k) =
          Returns-bind (check_receipt ctx dto)
            (λ o. transaction (receive_goods ctx dto o) >>= finish) db (check_receipt-IsReading dto)
            anew_returned in
        subst (λ r. Returns r.0) (sym p) tt

    all_checked : Returns (check_goods ctx lines dto.items db).0
    unfolding check_receipt Procurement.get_order_by_id
    all_checked = ground (arith, checked)

    -- When the creation of a goods receipt without an idempotency key returns, each of its items
    -- names a line of the order, and what it accepts and rejects together is at most what it
    -- received.
    pub create_goods_receipt-reconciles :
        (item : GoodsReceiptItemDto)
        → Memᴰ item dto.items
        → (any (λ i. i.id == item.purchase_order_item_id) lines ≡ true)
          × (leb (item.accepted_qty + or_zero item.rejected_qty) item.received_qty ≡ true)
    unfolding check_item check_goods
    create_goods_receipt-reconciles item m =
        let c =
          Returns-for_each dto.items (λ x. check (check_item lines x)) db item (λ _ _. refl) m
            all_checked in
        (ground arith, ground arith)
