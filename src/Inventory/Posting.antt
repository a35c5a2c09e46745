-- ===== src/Inventory/Posting.antt =====
-- The abstract view of one stock movement: which change of the stock table it makes, and that
-- `apply_movement` without interference makes exactly such a change or throws.
use abyte_tex.Base.{
  ℕ, ◌+◌, ◌≡◌, ◌∙◌, refl, Bool, true, false, Option, none, some, List, Memᴰ, ◌&&◌, ◌==◌, ◌==?◌, inl,
  inr, arith, any, truthy, Bool-cases, Option-cases, pos, ltb_ℤ,
}
use abyte_tex.Http.{ok, err, unique_violation}
use abyte_tex.Context.{TenantRequestContext}
use abyte_tex.Schema.{Stock}
use abyte_tex.Database.{Prisma, Db, pure, or_throw, ◌>>◌, ◌>>=◌}
use abyte_tex.Database.Laws.{bind_ok, Ensures, Ensures-bind, Ensures-step}
use abyte_tex.Inventory.{
  RecordMovementInput, base_where, stock_conflict, stock_row, movement_row, overdraws, increment,
  settle_stock, apply_movement, find_stock, retry_increment, increment_stock,
}

module _ ⦃P : Prisma⦄ (now t : ℕ) (input : RecordMovementInput) (l : List Stock) where
  pub data Posting (l' : List Stock) : Type 0 where
    drawn :
        (s : Stock)
        → Memᴰ s l
        → (s.tenant_id == t) && base_where input s ≡ true
        → overdraws input.quantity s.quantity ≡ false
        → l' ≡ P.update (λ r. (r.tenant_id == t) && (r.id == s.id)) (increment input.quantity now) l
        → Posting l'
    opened :
        (i : ℕ)
        → ltb_ℤ input.quantity (pos 0) ≡ false
        → any (stock_conflict (stock_row input now t i)) l ≡ false
        → l' ≡ P.create (stock_row input now t i) l
        → Posting l'

-- The row that a movement's first read of the stock table finds.
unfoldable pub found : ⦃P : Prisma⦄ → ℕ → RecordMovementInput → List Stock → Option Stock
found ⦃P⦄ t input l = elim (truthy input.batch_number) [
  | some b ↦
      P.find_first (λ s. (s.tenant_id == t) && (base_where input s && (s.batch_number ==? some b)))
        l
  | none ↦ P.find_least (λ s. s.updated_at) (λ s. (s.tenant_id == t) && base_where input s) l
]

&&-intro_left : (a b c : Bool) → a && (b && c) ≡ true → a && b ≡ true
&&-intro_left a b c h = ground arith

-- A row that the first read finds is in the table, and is the tenant's and the item's.
pub found-some :
    ⦃P : Prisma⦄ (t : ℕ) (input : RecordMovementInput) (l : List Stock) (s : Stock)
    → found t input l ≡ some s
    → Memᴰ s l × ((s.tenant_id == t) && base_where input s ≡ true)
unfolding found
found-some ⦃P⦄ t input l s e = elim (Option-cases (truthy input.batch_number)) [
  | inl n ↦ P.find_least-some _ _ l s (rw (n, found) at e)
  | inr (b, n) ↦
      let (m, fits) = P.find_first-some _ l s (rw (n, found) at e) in
      (m, &&-intro_left (s.tenant_id == t) (base_where input s) (s.batch_number ==? some b) fits)
]

module _ ⦃P : Prisma⦄ (ctx : TenantRequestContext) (t : ℕ) (h : truthy ctx.tenant_id ≡ some t) where
  pub find_stock_lem :
      (input : RecordMovementInput) (db : Db)
      → find_stock ctx input db ≡ (ok (found t input db.stock), db)
  unfolding find_stock found
  find_stock_lem input db = elim (Option-cases (truthy input.batch_number)) [
    | inl e ↦ rw (e, h, find_stock, found)
    | inr (b, e) ↦ rw (e, h, find_stock, found)
  ]

  settle_some :
      (input : RecordMovementInput) (db : Db) (s : Stock)
      → Memᴰ s db.stock
      → (s.tenant_id == t) && base_where input s ≡ true
      → Ensures
          (λ _ db'.
            Posting ctx.now t input db.stock db'.stock
            × (db' ≡ record db { stock = db'.stock; generated = db'.generated }))
          (settle_stock ctx input (some s) db)
  unfolding settle_stock
  settle_some input db s m b = elim (Bool-cases (overdraws input.quantity s.quantity)) [
    | inl e ↦ rw e tt
    | inr e ↦
        elim (Option-cases (P.find_first (λ r. (r.tenant_id == t) && (r.id == s.id)) db.stock)) [
          | inl n ↦ rw (h, e, n) tt
          | inr (r, f) ↦ rw (h, e, f) (drawn s m b e refl, refl)
        ]
  ]

  retry_missing :
      (input : RecordMovementInput) (db : Db)
      → found t input db.stock ≡ none
      → retry_increment ctx input db ≡ (err unique_violation, db)
  unfolding retry_increment
  retry_missing input db f =
      bind_ok (find_stock ctx input)
        (λ o. or_throw o unique_violation >>= λ s. increment_stock ctx s.id input.quantity) db
        (find_stock_lem input db)
      ∙ rw f

  settle_none :
      (input : RecordMovementInput) (db : Db)
      → found t input db.stock ≡ none
      → Ensures
          (λ _ db'.
            Posting ctx.now t input db.stock db'.stock
            × (db' ≡ record db { stock = db'.stock; generated = db'.generated }))
          (settle_stock ctx input none db)
  unfolding settle_stock
  settle_none input db missing = elim (Bool-cases (ltb_ℤ input.quantity (pos 0))) [
    | inl e ↦ rw e tt
    | inr e ↦
        elim (Bool-cases
          (any (stock_conflict (stock_row input ctx.now t (P.cuid db.generated))) db.stock)) [
            | inl c ↦ rw (e, h, c, retry_missing input db missing) tt
            | inr f ↦ rw (e, h, f) (opened (P.cuid db.generated) e f refl, refl)
          ]
  ]

  settle-Posting :
      (input : RecordMovementInput) (db : Db)
      → Ensures
          (λ _ db'.
            Posting ctx.now t input db.stock db'.stock
            × (db' ≡ record db { stock = db'.stock; generated = db'.generated }))
          (settle_stock ctx input (found t input db.stock) db)
  settle-Posting input db = elim (Option-cases (found t input db.stock)) [
    | inl e ↦ rw e (settle_none input db e)
    | inr (s, e) ↦
        let (m, fits) = found-some t input db.stock s e in rw e (settle_some input db s m fits)
  ]

  -- Without interference a movement adds its row to the ledger and makes one posting, or throws.
  pub apply_movement-Posting :
      (user_id : ℕ) (input : RecordMovementInput) (db : Db)
      → Ensures
          (λ m db'.
            Posting ctx.now t input db.stock db'.stock
            × (m ≡ movement_row input user_id t (P.cuid db.generated))
            × (db' ≡ record db {
              stock = db'.stock;
              stock_movements = P.create m db.stock_movements;
              generated = db'.generated;
            }))
          (apply_movement ctx (λ d. d) user_id input db)
  unfolding apply_movement
  apply_movement-Posting user_id input db =
      let m = movement_row input user_id t (P.cuid db.generated) in
      let db1 = record db {
        stock_movements = P.create m db.stock_movements;
        generated = db.generated + 1;
      } in
      rw h (
        Ensures-step _ (find_stock ctx input) (λ o. settle_stock ctx input o >> pure m) db1
          (find_stock_lem input db1)
          (Ensures-bind _ (settle_stock ctx input (found t input db.stock)) (λ _. pure m) db1
            (settle-Posting input db1) (λ s db' p. (p.0, refl, p.1))))
