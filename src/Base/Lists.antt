-- ===== src/Base/Lists.antt =====
-- Tables as lists: predicates on every row, sums over the rows that a test selects, membership.
use Prim.Native.Nat.{ℕ, suc}
use mathlib.Core.Path.{◌≡◌, refl, sym, ap, subst}
use mathlib.Core.Bool.{Bool, true, false}
use mathlib.Core.List.{List, [], ◌∷◌, ◌++◌, Memᴰ}
use native.Mathlib.Omega.{arith}
use abyte_tex.Base.Tests.{if◌then◌else◌}
use abyte_tex.Base.Int.{ℤ, pos, ◌+ℤ◌, int_laws}

module _ {A : Type 0} where
  abbrev pub length : List A → ℕ
  length [] = 0
  length (x ∷ xs) = suc (length xs)

  -- `Array.prototype.every`, `some` and `includes`-like searches.
  abbrev pub every : (A → Bool) → List A → Bool
  every p [] = true
  every p (x ∷ xs) = if p x then every p xs else false

  abbrev pub any : (A → Bool) → List A → Bool
  any p [] = false
  any p (x ∷ xs) = if p x then true else any p xs

  abbrev pub All : (A → Type 0) → List A → Type 0
  All P [] = Unit
  All P (x ∷ xs) = P x × All P xs

  pub All-mem : (P : A → Type 0) (xs : List A) {x : A} → All P xs → Memᴰ x xs → P x
  All-mem P [] h m = elim m [ ]
  All-mem P (y ∷ xs) h (Memᴰ.head e) = subst P (sym e) h.0
  All-mem P (y ∷ xs) h (Memᴰ.tail m) = All-mem P xs h.1 m

  pub All-of : (P : A → Type 0) (xs : List A) → ((x : A) → Memᴰ x xs → P x) → All P xs
  All-of P [] h = tt
  All-of P (y ∷ xs) h = (h y (Memᴰ.head refl), All-of P xs (λ x m. h x (Memᴰ.tail m)))

  pub All-append : (P : A → Type 0) (xs : List A) {x : A} → All P xs → P x → All P (xs ++ x ∷ [])
  All-append P [] h p = (p, tt)
  All-append P (y ∷ xs) h p = (h.0, All-append P xs h.1 p)

  -- The sum of a quantity over the rows that a test selects.
  abbrev pub sum_where : (A → Bool) → (A → ℤ) → List A → ℤ
  sum_where p q [] = pos 0
  sum_where p q (x ∷ xs) = (if p x then q x else pos 0) +ℤ sum_where p q xs

  pub sum_where-append :
      (p : A → Bool) (q : A → ℤ) (xs : List A) (x : A)
      → sum_where p q (xs ++ x ∷ []) ≡ sum_where p q xs +ℤ (if p x then q x else pos 0)
  sum_where-append p q [] x = omega int_laws
  sum_where-append p q (y ∷ xs) x = rw (sum_where-append p q xs x) (omega int_laws)

  -- `any` finds nothing that a member would satisfy.
  pub not_any-mem :
      (p : A → Bool) (xs : List A) {x : A} → any p xs ≡ false → Memᴰ x xs → p x ≡ false
  not_any-mem p [] h m = elim m [ ]
  not_any-mem p (y ∷ xs) {x} h (Memᴰ.head e) = ground (arith, ap p e)
  not_any-mem p (y ∷ xs) h (Memᴰ.tail m) = not_any-mem p xs (ground arith) m

  -- `Array.prototype.filter`
  abbrev pub filter : (A → Bool) → List A → List A
  filter p [] = []
  filter p (x ∷ xs) = if p x then x ∷ filter p xs else filter p xs

-- `Array.prototype.flatMap`
unfoldable pub flat_map : {A B : Type 0} → (A → List B) → List A → List B
flat_map f [] = []
flat_map f (x ∷ xs) = f x ++ flat_map f xs
