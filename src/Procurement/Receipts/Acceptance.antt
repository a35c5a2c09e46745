-- ===== src/Procurement/Receipts/Acceptance.antt =====
-- The acceptance of a goods receipt.
use abyte_tex.Base.{
  ℕ, ◌≡◌, refl, false, Option, List, ◌==◌, ltb, if◌then◌else◌, arith, Bool-cases, inl, inr,
}
use abyte_tex.Http.{Error, err, record_not_found}
use abyte_tex.Context.{TenantRequestContext}
use abyte_tex.Schema
use abyte_tex.Schema.{
  GoodsReceipt, GoodsReceiptItem, GoodsReceiptStatus, same_goods_receipt_status, AuditAction,
  PurchaseOrderItem,
}
use abyte_tex.Database.{
  Prisma, Db, Action, ◌>>=◌, ◌>>◌, pure, or_throw, for_each, transaction, log, purchase_order_items,
  find_first,
}
use abyte_tex.Database.Laws.{Ensures, Ensures-bind, Ensures-for_each, Ensures-transaction}
use abyte_tex.Database.Effects.{
  IsReading, IsAtomic-bind, IsAtomic-then, IsAtomic-transaction, IsReading-Ensures,
  Ensures-IsAtomic,
}
use abyte_tex.Inventory.{record_movement_in}
use abyte_tex.Inventory.Recording.{
  IsSound, IsSound-same, IsSound-untouched, record_movement_in-IsSound,
}
use abyte_tex.Procurement.Receipts.{
  acceptance_input, get_goods_receipt_by_id, accept_item, accept_goods_receipt, final_status,
  accept_all, close_receipt, open_receipt,
}

-- An acceptance gives the receipt a final status.
pub final_status-is_final :
    (items : List GoodsReceiptItem)
    → same_goods_receipt_status (final_status items) GoodsReceiptStatus.pending_qc ≡ false
unfolding final_status
final_status-is_final items = ground arith

module _ ⦃P : Prisma⦄ (ctx : TenantRequestContext) where
  -- The receipt of one accepted item, or nothing for an item that accepts none.
  abbrev post : GoodsReceipt → ℕ → GoodsReceiptItem → PurchaseOrderItem → Action (Unit {0})
  post r user_id i p =
      if ltb 0 i.accepted_qty
      then (record_movement_in ctx user_id (acceptance_input r i p) >>= λ _. pure tt)
      else pure tt

  post-IsSound :
      (r : GoodsReceipt) (user_id : ℕ) (i : GoodsReceiptItem) (p : PurchaseOrderItem) (db : Db)
      → IsSound db
      → Ensures (λ _ d. IsSound d) (post r user_id i p db)
  post-IsSound r user_id i p db h = elim (Bool-cases (ltb 0 i.accepted_qty)) [
    | inl c ↦
        rw (post, c)
          (Ensures-bind (λ _ d. IsSound d) (record_movement_in ctx user_id (acceptance_input r i p))
            (λ _. pure tt) db (record_movement_in-IsSound ctx user_id (acceptance_input r i p) db h)
            (λ _ _ k. k))
    | inr c ↦ rw (post, c) h
  ]

  accept_item-IsSound :
      (r : GoodsReceipt) (user_id : ℕ) (i : GoodsReceiptItem) (db : Db)
      → IsSound db
      → Ensures (λ _ d. IsSound d) (accept_item ctx r user_id i db)
  unfolding accept_item
  accept_item-IsSound r user_id i db h =
      let find = find_first purchase_order_items ctx (λ p. p.id == i.purchase_order_item_id) in
      let throw_if_absent = λ (o : Option PurchaseOrderItem). or_throw o record_not_found in
      let go = post r user_id i in
      Ensures-bind (λ _ d. IsSound d) find (λ o. throw_if_absent o >>= go) db
        (IsReading-Ensures IsSound find db (λ d. ground arith) h)
        (λ o d1 h1.
          Ensures-bind (λ _ d. IsSound d) (throw_if_absent o) go d1
            (IsReading-Ensures IsSound (throw_if_absent o) d1 (λ d. ground arith) h1)
            (λ p d2 h2. post-IsSound r user_id i p d2 h2))

  close_receipt-IsSound :
      (id : ℕ) (items : List GoodsReceiptItem) (db : Db)
      → IsSound db
      → Ensures (λ _ d. IsSound d) (close_receipt ctx id items db)
  unfolding close_receipt
  close_receipt-IsSound id items db h =
      IsSound-untouched db (close_receipt ctx id items db) (ground arith) (ground arith) h

  accept_all-IsSound :
      (id user_id : ℕ) (r : GoodsReceipt) (items : List GoodsReceiptItem) (db : Db)
      → IsSound db
      → Ensures (λ _ d. IsSound d) (accept_all ctx id user_id r items db)
  unfolding accept_all
  accept_all-IsSound id user_id r items db h =
      Ensures-bind (λ _ d. IsSound d) (for_each items (accept_item ctx r user_id))
        (λ _. close_receipt ctx id items) db
        (Ensures-for_each IsSound items (accept_item ctx r user_id) db
          (accept_item-IsSound r user_id) h)
        (λ _ d k. close_receipt-IsSound id items d k)

  -- What `acceptGoodsReceipt` does before its transaction.
  pub open_receipt-IsReading : (id : ℕ) → IsReading (open_receipt ctx id)
  unfolding open_receipt get_goods_receipt_by_id
  open_receipt-IsReading id db = ground arith

  abbrev pub finish : ℕ → ℕ → GoodsReceipt × List GoodsReceiptItem → Action GoodsReceipt
  finish id user_id (r, items) = transaction (accept_all ctx id user_id r items) >>= λ updated.
      (log ctx AuditAction.update Schema.EntityType.goods_receipt id >> pure updated)

  accept_goods_receipt-Ensures :
      (id user_id : ℕ) (db : Db)
      → IsSound db
      → Ensures (λ _ d. IsSound d) (accept_goods_receipt ctx id user_id db)
  unfolding accept_goods_receipt
  accept_goods_receipt-Ensures id user_id db h =
      Ensures-bind (λ _ d. IsSound d) (open_receipt ctx id) (finish id user_id) db
        (IsReading-Ensures IsSound (open_receipt ctx id) db (open_receipt-IsReading id) h)
        (λ (r, items) d1 h1.
          Ensures-bind (λ _ d. IsSound d) (transaction (accept_all ctx id user_id r items))
            (λ u. log ctx AuditAction.update Schema.EntityType.goods_receipt id >> pure u) d1
            (Ensures-transaction (λ _ d. IsSound d) (accept_all ctx id user_id r items) d1
              (accept_all-IsSound id user_id r items d1 h1))
            (λ u d2 h2.
              IsSound-same d2 (log ctx AuditAction.update Schema.EntityType.goods_receipt id d2).1
                refl refl h2))

  -- An acceptance that throws leaves the database as it was.
  pub accept_goods_receipt_atomic :
      (id user_id : ℕ) (db : Db) (x : Error)
      → (accept_goods_receipt ctx id user_id db).0 ≡ err x
      → (accept_goods_receipt ctx id user_id db).1 ≡ db
  unfolding accept_goods_receipt
  accept_goods_receipt_atomic id user_id =
      IsAtomic-bind (open_receipt ctx id) (finish id user_id) (open_receipt-IsReading id)
        (λ (r, items).
          IsAtomic-then (transaction (accept_all ctx id user_id r items))
            (λ u. log ctx AuditAction.update Schema.EntityType.goods_receipt id >> pure u)
            (IsAtomic-transaction (accept_all ctx id user_id r items)) (λ _ _. tt))

  -- An acceptance that no other transaction interferes with, whether it is made or refused, keeps
  -- the inventory sound: no balance is negative, and every balance is the sum of its ledger.
  pub accept_goods_receipt-IsSound :
      (id user_id : ℕ) (db : Db) → IsSound db → IsSound (accept_goods_receipt ctx id user_id db).1
  accept_goods_receipt-IsSound id user_id db h =
      Ensures-IsAtomic IsSound (accept_goods_receipt ctx id user_id) db
        (accept_goods_receipt-Ensures id user_id db h) (accept_goods_receipt_atomic id user_id) h
