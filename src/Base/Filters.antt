-- ===== src/Base/Filters.antt =====
-- The rows that a test keeps: what a table's writes leave of them.
use mathlib.Core.Path.{◌≡◌, refl, ap}
use mathlib.Core.Logic.{inl, inr}
use mathlib.Core.Bool.{Bool, true, false}
use mathlib.Core.List.{List, [], ◌∷◌, ◌++◌, map, Memᴰ}
use native.Mathlib.Omega.{arith}
use abyte_tex.Base.Lists.{filter, every}
use abyte_tex.Base.Tests.{Bool-cases}

pub filter-append :
    {R : Type 0} (p : R → Bool) (r : R) (l : List R)
    → p r ≡ false
    → filter p (l ++ r ∷ []) ≡ filter p l
filter-append p r [] e = rw e refl
filter-append p r (x ∷ l) e = ground (arith, filter-append p r l e)

-- A change that leaves alone the rows that the test keeps, and never changes what the test says.
pub filter-map_mem :
    {R : Type 0} (p : R → Bool) (f : R → R) (l : List R)
    → ((r : R) → Memᴰ r l → p r ≡ true → f r ≡ r)
    → ((r : R) → p (f r) ≡ p r)
    → filter p (map f l) ≡ filter p l
filter-map_mem p f [] kept same = refl
filter-map_mem p f (x ∷ l) kept same =
    let rest = filter-map_mem p f l (λ r m. kept r (Memᴰ.tail m)) same in
    elim (Bool-cases (p x)) [
      | inl e ↦ rw (same x, e, kept x (Memᴰ.head refl) e, rest) refl
      | inr e ↦ rw (same x, e) rest
    ]

pub filter-map :
    {R : Type 0} (p : R → Bool) (f : R → R) (l : List R)
    → ((r : R) → p r ≡ true → f r ≡ r)
    → ((r : R) → p (f r) ≡ p r)
    → filter p (map f l) ≡ filter p l
filter-map p f l kept same = filter-map_mem p f l (λ r _. kept r) same

-- A row that the test keeps has what all rows have that it keeps.
pub every-filter :
    {R : Type 0} (p q : R → Bool) (l : List R) {x : R}
    → every q (filter p l) ≡ true
    → Memᴰ x l
    → p x ≡ true
    → q x ≡ true
every-filter p q [] h m e = elim m [ ]
every-filter p q (y ∷ l) {x} h (Memᴰ.head s) e = ground (arith, ap p s, ap q s)
every-filter p q (y ∷ l) h (Memᴰ.tail m) e = elim (Bool-cases (p y)) [
  | inl c ↦ every-filter p q l (ground arith) m e
  | inr c ↦ every-filter p q l (ground arith) m e
]
