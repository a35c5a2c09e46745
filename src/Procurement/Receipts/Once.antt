-- ===== src/Procurement/Receipts/Once.antt =====
-- A goods receipt is accepted once.
use abyte_tex.Base.{
  ℕ, ◌≡◌, refl, sym, ap, subst, Bool, false, some, List, [], ◌∷◌, map, ◌&&◌, ◌==◌, if◌then◌else◌,
  truthy, All, All-mem, Option-cases, inl, inr, arith,
}
use abyte_tex.Http.{Result, ok, err, Error}
use abyte_tex.Context.{TenantRequestContext}
use abyte_tex.Schema
use abyte_tex.Schema.{
  GoodsReceipt, GoodsReceiptItem, GoodsReceiptStatus, same_goods_receipt_status, AuditAction,
}
use abyte_tex.Database.{Prisma, Db, Action, ◌>>◌, pure, for_each, transaction, log}
use abyte_tex.Database.Laws.{Ensures, Ensures-of, Ensures-bind, Ensures-transaction}
use abyte_tex.Database.Effects.{IsAtomic, Returns, Returns-bind}
use abyte_tex.Procurement.Receipts.{
  get_goods_receipt_by_id, accept_item, accept_goods_receipt, final_status, accept_all,
  close_receipt, open_receipt,
}
use abyte_tex.Procurement.Receipts.Acceptance.{
  final_status-is_final, open_receipt-IsReading, finish, accept_goods_receipt_atomic,
}

abbrev is_pending : GoodsReceipt → Bool
is_pending r = same_goods_receipt_status r.status GoodsReceiptStatus.pending_qc

anything : {A : Type 0} (r : Result A × Db) → Ensures (λ _ _. Unit {0}) r
anything r = Ensures-of (λ _ _. Unit {0}) r (λ _ _. tt)

Ensures_returned :
    {A : Type 0} (I : Db → Type 0) (r : Result A × Db)
    → Ensures (λ _ d. I d) r
    → Returns r.0
    → I r.1
Ensures_returned I (ok a, d) h k = h
Ensures_returned I (err x, d) h k = absurd k

-- An action that leaves nothing behind when it throws, and does not return.
thrown :
    {A : Type 0} (m : Action A) (db : Db)
    → IsAtomic m
    → (Returns (m db).0 → ⊥)
    → (x : Error) × (m db ≡ (err x, db))
thrown {A = A} m db a n = go (m db) (a db) n
  where
    go :
        (r : Result A × Db)
        → ((x : Error) → r.0 ≡ err x → r.1 ≡ db)
        → (Returns r.0 → ⊥)
        → (x : Error) × (r ≡ (err x, db))
    go (ok b, d) k n = absurd (n tt)
    go (err x, d) k n = (x, ap (λ y. (err x, y)) (k x refl))

module _ ⦃P : Prisma⦄ (t id : ℕ) where
  abbrev is_receipt : GoodsReceipt → Bool
  is_receipt r = (r.tenant_id == t) && (r.id == id)

  -- No row of the receipt waits for acceptance.
  abbrev Closed : Db → Type 0
  Closed db = All (λ r. is_receipt r && is_pending r ≡ false) db.goods_receipts

  settled :
      (s : GoodsReceiptStatus) (l : List GoodsReceipt)
      → same_goods_receipt_status s GoodsReceiptStatus.pending_qc ≡ false
      → All
          (λ r. is_receipt r && is_pending r ≡ false)
          (map (λ r. if is_receipt r then record r { status = s } else r) l)
  settled s [] h = tt
  settled s (r ∷ l) h = (ground arith, settled s l h)

  module _ (ctx : TenantRequestContext) (e : truthy ctx.tenant_id ≡ some t) where
    close_receipt_writes :
        (items : List GoodsReceiptItem) (db : Db) (a : GoodsReceipt)
        → (close_receipt ctx id items db).0 ≡ ok a
        → (close_receipt ctx id items db).1.goods_receipts
          ≡ P.update is_receipt (λ r. record r { status = final_status items }) db.goods_receipts
    unfolding close_receipt
    close_receipt_writes items db a r = ground arith

    close_receipt-Closed :
        (items : List GoodsReceiptItem) (db : Db)
        → Ensures (λ _ d. Closed d) (close_receipt ctx id items db)
    close_receipt-Closed items db =
        Ensures-of (λ _ d. Closed d) (close_receipt ctx id items db)
          (λ a r.
            rw (close_receipt_writes items db a r, P.update_lem)
              (settled (final_status items) db.goods_receipts (final_status-is_final items)))

    accept_goods_receipt-Closed :
        (user_id : ℕ) (db : Db) → Ensures (λ _ d. Closed d) (accept_goods_receipt ctx id user_id db)
    unfolding accept_goods_receipt accept_all
    accept_goods_receipt-Closed user_id db =
        let I : GoodsReceipt → Db → Type 0 = λ _ d. Closed d in
        Ensures-bind I (open_receipt ctx id) (finish ctx id user_id) db
          (anything (open_receipt ctx id db))
          (λ (r, items) d1 _.
            Ensures-bind I (transaction (accept_all ctx id user_id r items))
              (λ u. log ctx AuditAction.update Schema.EntityType.goods_receipt id >> pure u) d1
              (Ensures-transaction I (accept_all ctx id user_id r items) d1 (
                Ensures-bind I (for_each items (accept_item ctx r user_id))
                  (λ _. close_receipt ctx id items) d1
                  (anything (for_each items (accept_item ctx r user_id) d1))
                  (λ _ d2 _. close_receipt-Closed items d2)))
              (λ u d k. k))

    -- A receipt that is closed cannot be opened.
    open_receipt-Closed : (db : Db) → Closed db → Returns (open_receipt ctx id db).0 → ⊥
    unfolding open_receipt get_goods_receipt_by_id
    open_receipt-Closed db c r = elim (Option-cases (P.find_first is_receipt db.goods_receipts)) [
      | inl f ↦ ground arith
      | inr (x, f) ↦
          let (m, h) = P.find_first-some is_receipt db.goods_receipts x f in
          let k = All-mem (λ r. is_receipt r && is_pending r ≡ false) db.goods_receipts c m in
          ground (arith, h, k)
    ]

    no_second :
        (user_id : ℕ) (db : Db) → Closed db → Returns (accept_goods_receipt ctx id user_id db).0 → ⊥
    unfolding accept_goods_receipt
    no_second user_id db c r =
        let (a, p, _) =
          Returns-bind (open_receipt ctx id) (finish ctx id user_id) db
            (open_receipt-IsReading ctx id) r in
        open_receipt-Closed db c (subst (λ x. Returns x.0) (sym p) tt)

  -- A goods receipt is accepted at most once: after an acceptance that returned, and whatever other
  -- requests then do to the other tables, an acceptance of the receipt by any user of the tenant
  -- throws and leaves the database as it was.
  pub accept_goods_receipt_once :
      (ctx ctx' : TenantRequestContext) (user_id user_id' : ℕ) (db d : Db)
      → truthy ctx.tenant_id ≡ some t
      → truthy ctx'.tenant_id ≡ some t
      → Returns (accept_goods_receipt ctx id user_id db).0
      → d.goods_receipts ≡ (accept_goods_receipt ctx id user_id db).1.goods_receipts
      → (x : Error) × (accept_goods_receipt ctx' id user_id' d ≡ (err x, d))
  accept_goods_receipt_once ctx ctx' user_id user_id' db d e e' r same =
      thrown (accept_goods_receipt ctx' id user_id') d
        (accept_goods_receipt_atomic ctx' id user_id')
        (λ k.
          no_second ctx' e' user_id' d
            (rw same (
              Ensures_returned Closed (accept_goods_receipt ctx id user_id db)
                (accept_goods_receipt-Closed ctx e user_id db) r))
            k)
