-- ===== src/Base/Keys.antt =====
-- Lists whose elements have distinct keys: rows of a table with a primary key.
use Prim.Native.Nat.{ℕ}
use mathlib.Core.Path.{◌≡◌, refl, sym, ◌∙◌, ap}
use mathlib.Core.Bool.{Bool, false}
use mathlib.Core.List.{List, [], ◌∷◌, ◌++◌, map, Memᴰ}
use native.Mathlib.Omega.{arith}
use abyte_tex.Base.Tests.{if◌then◌else◌, ◌==◌}
use abyte_tex.Base.Int.{ℤ, pos, ◌+ℤ◌, int_laws}
use abyte_tex.Base.Lists.{any, All, sum_where, not_any-mem}
use mathlib.Core.Logic.{◌≢◌}

any-append :
    {R : Type 0} (p : R → Bool) (xs : List R) (x : R)
    → any p xs ≡ false
    → p x ≡ false
    → any p (xs ++ x ∷ []) ≡ false
any-append p [] x h e = rw e
any-append p (y ∷ xs) x h e = ground (arith, any-append p xs x)

module _ {R : Type 0} (key : R → ℕ) where
  abbrev pub HasUniqueKeys : List R → Type 0
  HasUniqueKeys [] = Unit
  HasUniqueKeys (x ∷ xs) = (any (λ r. key r == key x) xs ≡ false) × HasUniqueKeys xs

  absent :
      (x : R) (xs : List R) (r : R)
      → any (λ r. key r == key x) xs ≡ false
      → Memᴰ r xs
      → key r ≡ key x
      → ⊥
  absent x xs r h m e = ground (arith, not_any-mem (λ (y : R). key y == key x) xs {x = r} h m)

  pub unique_mem :
      (xs : List R) (r s : R) → HasUniqueKeys xs → Memᴰ r xs → Memᴰ s xs → key r ≡ key s → r ≡ s
  unique_mem [] r s h m n e = elim m [ ]
  unique_mem (x ∷ xs) r s h (Memᴰ.head p) (Memᴰ.head q) e = p ∙ sym q
  unique_mem (x ∷ xs) r s h (Memᴰ.head p) (Memᴰ.tail n) e =
      absurd (absent x xs s h.0 n (sym e ∙ ap key p))
  unique_mem (x ∷ xs) r s h (Memᴰ.tail m) (Memᴰ.head q) e =
      absurd (absent x xs r h.0 m (e ∙ ap key q))
  unique_mem (x ∷ xs) r s h (Memᴰ.tail m) (Memᴰ.tail n) e = unique_mem xs r s h.1 m n e

  -- Appending a row with a new key keeps the keys distinct.
  pub HasUniqueKeys-append :
      (xs : List R) (x : R)
      → HasUniqueKeys xs
      → any (λ r. key r == key x) xs ≡ false
      → HasUniqueKeys (xs ++ x ∷ [])
  HasUniqueKeys-append [] x h f = (refl, tt)
  HasUniqueKeys-append (y ∷ xs) x h f = (
    any-append (λ r. key r == key y) xs x h.0 (ground arith),
    HasUniqueKeys-append xs x h.1 (ground arith),
  )

  -- A change that keeps the keys keeps them distinct.
  pub any_key-map :
      (f : R → R) (k : ℕ) (xs : List R)
      → ((r : R) → key (f r) ≡ key r)
      → any (λ r. key r == k) (map f xs) ≡ any (λ r. key r == k) xs
  any_key-map f k [] e = refl
  any_key-map f k (x ∷ xs) e = rw (e x, any_key-map f k xs e)

  pub HasUniqueKeys-map :
      (f : R → R) (xs : List R)
      → ((r : R) → key (f r) ≡ key r)
      → HasUniqueKeys xs
      → HasUniqueKeys (map f xs)
  HasUniqueKeys-map f [] e h = tt
  HasUniqueKeys-map f (x ∷ xs) e h =
      (rw (e x, any_key-map f (key x) xs e) h.0, HasUniqueKeys-map f xs e h.1)

pub All-image :
    {A : Type 0} (Q : A → Type 0) (f : A → A) (xs : List A)
    → ((x : A) → Memᴰ x xs → Q (f x))
    → All Q (map f xs)
All-image Q f [] h = tt
All-image Q f (x ∷ xs) h = (h x (Memᴰ.head refl), All-image Q f xs (λ y m. h y (Memᴰ.tail m)))

-- Induction over the members of a mapped list.
pub All-map :
    {R : Type 0} (Q : R → Type 0) (f : R → R) (xs : List R)
    → ((r : R) → Memᴰ r xs → Q r → Q (f r))
    → All Q xs
    → All Q (map f xs)
All-map Q f [] e h = tt
All-map Q f (x ∷ xs) e h = (e x (Memᴰ.head refl) h.0, All-map Q f xs (λ r m. e r (Memᴰ.tail m)) h.1)

module _ {R : Type 0} (sel : R → Bool) (q : R → ℤ) (f : R → R) where
  -- A change that touches no quantity of the selected rows leaves their sum.
  pub sum_where-map_same :
      (xs : List R)
      → ((r : R)
          → Memᴰ r xs
          → (if sel (f r) then q (f r) else pos 0) ≡ (if sel r then q r else pos 0))
      → sum_where sel q (map f xs) ≡ sum_where sel q xs
  sum_where-map_same [] e = refl
  sum_where-map_same (x ∷ xs) e =
      rw (e x (Memᴰ.head refl), sum_where-map_same xs (λ r m. e r (Memᴰ.tail m)))

  -- A change of the one row with the key of `s` changes the sum as it changes that row.
  pub sum_where-map_one :
      (key : R → ℕ) (d : ℤ) (xs : List R) (s : R)
      → HasUniqueKeys key xs
      → Memᴰ s xs
      → ((r : R)
          → key r ≢ key s
          → (if sel (f r) then q (f r) else pos 0) ≡ (if sel r then q r else pos 0))
      → (if sel (f s) then q (f s) else pos 0) ≡ (if sel s then q s else pos 0) +ℤ d
      → sum_where sel q (map f xs) ≡ sum_where sel q xs +ℤ d
  sum_where-map_one key d [] s u m same one = elim m [ ]
  sum_where-map_one key d (x ∷ xs) s u (Memᴰ.head e) same one =
      rw
        (
          ← e,
          one,
          sum_where-map_same xs (λ r m. same r (λ e'. absent key x xs r u.0 m (e' ∙ ap key e))),
        )
        (omega int_laws)
  sum_where-map_one key d (x ∷ xs) s u (Memᴰ.tail m) same one =
      rw
        (same x (λ e. absent key x xs s u.0 m (sym e)), sum_where-map_one key d xs s u.1 m same one)
        (omega int_laws)
