-- ===== src/Inventory/Balance.antt =====
-- The stock balances against the ledger: no balance is negative, and the balance of an item is the
-- sum of its movements.
use abyte_tex.Base.{
  ℕ, ◌≡◌, refl, sym, ap, Bool, true, false, Option, List, [], ◌∷◌, ◌&&◌, ◌==◌, ◌==?◌, arith, any,
  if◌then◌else◌, ℤ, pos, ltb_ℤ, ◌+ℤ◌, ◌≤ℤ◌, int_laws, All, HasUniqueKeys, unique_mem, sum_where,
  sum_where-append, sum_where-map_one, ==?→≡, +ℤ_parts, ◌≢◌, subst,
}
use abyte_tex.Schema.{Stock, StockMovement}
use abyte_tex.Database.{Prisma}
use abyte_tex.Database.Laws.{All-update, All-create, HasUniqueKeys-update, HasUniqueKeys-create}
use abyte_tex.Inventory.{
  RecordMovementInput, base_where, stock_conflict, stock_row, movement_row, overdraws, increment,
}
use abyte_tex.Inventory.Posting.{Posting, drawn, opened}

-- Rows have distinct identifiers, and no balance is negative.
pub record IsStocked (l : List Stock) : Type 0 where
  pub unique : HasUniqueKeys (λ s. s.id) l
  pub nonneg : All (λ s. pos 0 ≤ℤ s.quantity) l

-- What a balance is kept of.
pub record Item : Type 0 where
  pub tenant_id : ℕ
  pub warehouse_id : ℕ
  pub location_id : Option ℕ
  pub product_id : Option ℕ
  pub material_id : Option ℕ

unfoldable pub same_item : Item → Item → Bool
same_item k i =
    (i.tenant_id == k.tenant_id)
    && (i.warehouse_id == k.warehouse_id)
    && (i.location_id ==? k.location_id)
    && (i.product_id ==? k.product_id)
    && (i.material_id ==? k.material_id)

abbrev pub stock_item : Stock → Item
stock_item s = record {
  tenant_id = s.tenant_id;
  warehouse_id = s.warehouse_id;
  location_id = s.location_id;
  product_id = s.product_id;
  material_id = s.material_id;
}

abbrev pub movement_item : StockMovement → Item
movement_item m = record {
  tenant_id = m.tenant_id;
  warehouse_id = m.warehouse_id;
  location_id = m.location_id;
  product_id = m.product_id;
  material_id = m.material_id;
}

-- The balance of an item over all its batches, and the sum of its movements.
abbrev pub on_hand : Item → List Stock → ℤ
on_hand k = sum_where (λ s. same_item k (stock_item s)) (λ s. s.quantity)

abbrev pub ledger : Item → List StockMovement → ℤ
ledger k = sum_where (λ m. same_item k (movement_item m)) (λ m. m.quantity)

kept_nonneg : (q a : ℤ) → overdraws q a ≡ false → pos 0 ≤ℤ a → pos 0 ≤ℤ a +ℤ q
kept_nonneg q a h n = ground (arith, +ℤ_parts a q)

opened_nonneg : (q : ℤ) → ltb_ℤ q (pos 0) ≡ false → pos 0 ≤ℤ q
opened_nonneg q h = ground arith

no_id :
    (r : Stock) (l : List Stock)
    → any (stock_conflict r) l ≡ false
    → any (λ s. s.id == r.id) l ≡ false
no_id r [] h = refl
no_id r (s ∷ l) h = ground (arith, no_id r l)

fits_item :
    (t : ℕ) (input : RecordMovementInput) (s : Stock) (u i : ℕ)
    → (s.tenant_id == t) && base_where input s ≡ true
    → stock_item s ≡ movement_item (movement_row input u t i)
fits_item t input s u i h = ground (
  arith,
  ==?→≡ s.location_id input.location_id,
  ==?→≡ s.product_id input.product_id,
  ==?→≡ s.material_id input.material_id,
)

added :
    (b c : Bool) (x q : ℤ)
    → b ≡ c
    → (if b then x +ℤ q else pos 0) ≡ (if b then x else pos 0) +ℤ (if c then q else pos 0)
added true true x q e = refl
added true false x q e = cc
added false true x q e = cc
added false false x q e = omega int_laws

-- The rows that the increment of `s` writes.
abbrev pub hits : ℕ → Stock → Stock → Bool
hits t s r = (r.tenant_id == t) && (r.id == s.id)

pub hits_self :
    (t : ℕ) (input : RecordMovementInput) (s : Stock)
    → (s.tenant_id == t) && base_where input s ≡ true
    → hits t s s ≡ true
hits_self t input s h = ground arith

hits_id : (t : ℕ) (s r : Stock) → hits t s r ≡ true → r.id ≡ s.id
hits_id t s r h = ground arith

misses : (t : ℕ) (s r : Stock) → r.id ≢ s.id → hits t s r ≡ false
misses t s r h = ground arith

module _ ⦃P : Prisma⦄ (now t : ℕ) (input : RecordMovementInput) (l : List Stock)
    {l' : List Stock} where
  pub Posting-IsStocked : Posting now t input l l' → IsStocked l → IsStocked l'
  Posting-IsStocked (drawn s m fits enough e) h = rw e (record {
    unique =
        HasUniqueKeys-update (λ r. r.id) (hits t s) (increment input.quantity now) l (λ r. refl)
          h.unique;
    nonneg =
        All-update (λ r. pos 0 ≤ℤ r.quantity) (hits t s) (increment input.quantity now) l
          (λ r n p q.
            let same = unique_mem (λ x. x.id) l r s h.unique n m (hits_id t s r p) in
            kept_nonneg input.quantity r.quantity
              (subst (λ x. overdraws input.quantity x.quantity ≡ false) (sym same) enough) q)
          h.nonneg;
  })
  Posting-IsStocked (opened i q new e) h = rw e (record {
    unique =
        HasUniqueKeys-create (λ r. r.id) (stock_row input now t i) l h.unique
          (no_id (stock_row input now t i) l new);
    nonneg =
        All-create (λ r. pos 0 ≤ℤ r.quantity) (stock_row input now t i) l h.nonneg
          (opened_nonneg input.quantity q);
  })

  pub Posting-on_hand :
      (u i : ℕ) (k : Item)
      → Posting now t input l l'
      → IsStocked l
      → on_hand k l'
        ≡ on_hand k l
          +ℤ (if same_item k (movement_item (movement_row input u t i))
              then input.quantity
              else pos 0)
  Posting-on_hand u i k (drawn s m fits enough e) h =
      let f : Stock → Stock = λ r. if hits t s r then increment input.quantity now r else r in
      rw (e, P.update_lem)
        (sum_where-map_one (λ r. same_item k (stock_item r)) (λ r. r.quantity) f (λ r. r.id) _ l s
          h.unique m (λ r ne. rw (misses t s r ne))
          (rw (hits_self t input s fits) (
            added _ _ s.quantity input.quantity (ap (same_item k) (fits_item t input s u i fits)))))
  Posting-on_hand u i k (opened j q new e) h =
      rw (e, P.create_lem)
        (sum_where-append (λ r. same_item k (stock_item r)) (λ r. r.quantity) l
          (stock_row input now t j))
