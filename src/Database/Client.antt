-- ===== src/Database/Client.antt =====
-- What the program relies on of the Prisma client and of PostgreSQL, which stand outside the
-- repository: the queries are a parameter, with their documented results.
use abyte_tex.Base.{
  ℕ, ◌+◌, ◌*◌, ℤ, pos_part, neg_part, ◌≤◌, ◌≡◌, Bool, true, false, Option, none, some, List, [],
  ◌∷◌, ◌++◌, Memᴰ, map, if◌then◌else◌, ◌&&◌, not, ◌||◌, every, any, length, filter, All,
}

-- Later rows do not have larger keys.
abbrev pub IsDescending : {R : Type 0} → (R → ℕ) → List R → Type 0
IsDescending key [] = Unit
IsDescending key (r ∷ l) = All (λ s. key s ≤ key r) l × IsDescending key l

-- 10⁻⁵ to a nearest hundredth: 1000 r is within 500 of x, for integers that may be negative.
abbrev pub IsRounded : ℤ → ℤ → Type 0
IsRounded x r =
    (1000 * pos_part r + neg_part x ≤ pos_part x + 1000 * neg_part r + 500)
    × (pos_part x + 1000 * neg_part r ≤ 1000 * pos_part r + neg_part x + 500)

pub record Prisma : Type 1 where
  -- `findFirst`, `findUnique`: some row that fits, `null` if there is none.
  pub find_first : {R : Type 0} → (R → Bool) → List R → Option R
  -- `findFirst` with `orderBy: { … : 'asc' }`.
  pub find_least : {R : Type 0} → (R → ℕ) → (R → Bool) → List R → Option R
  -- `findMany`, in whatever order.
  pub find_many : {R : Type 0} → (R → Bool) → List R → List R
  -- `findMany` with `orderBy: { … : 'desc' }`.
  pub find_latest : {R : Type 0} → (R → ℕ) → (R → Bool) → List R → List R
  pub count : {R : Type 0} → (R → Bool) → List R → ℕ
  -- `create`, and `update` of the rows that fit.
  pub create : {R : Type 0} → R → List R → List R
  pub update : {R : Type 0} → (R → Bool) → (R → R) → List R → List R
  -- `deleteMany`.
  pub delete : {R : Type 0} → (R → Bool) → List R → List R
  -- What a column `Decimal(14, 2)` stores of a number, in hundredths.
  pub to_cents : ℤ → ℤ
  -- The n-th identifier that `cuid()` makes.
  pub cuid : ℕ → ℕ
  pub to_cents-IsRounded : (x : ℤ) → IsRounded x (to_cents x)
  pub find_first-some :
      {R : Type 0} (p : R → Bool) (l : List R) (r : R)
      → find_first p l ≡ some r
      → Memᴰ r l × (p r ≡ true)
  pub find_first-none :
      {R : Type 0} (p : R → Bool) (l : List R) (r : R)
      → find_first p l ≡ none
      → Memᴰ r l
      → p r ≡ false
  pub find_least-some :
      {R : Type 0} (key : R → ℕ) (p : R → Bool) (l : List R) (r : R)
      → find_least key p l ≡ some r
      → Memᴰ r l × (p r ≡ true)
  pub find_least-le :
      {R : Type 0} (key : R → ℕ) (p : R → Bool) (l : List R) (r s : R)
      → find_least key p l ≡ some r
      → Memᴰ s l
      → p s ≡ true
      → key r ≤ key s
  pub find_least-none :
      {R : Type 0} (key : R → ℕ) (p : R → Bool) (l : List R) (r : R)
      → find_least key p l ≡ none
      → Memᴰ r l
      → p r ≡ false
  pub find_many-every :
      {R : Type 0} (p q : R → Bool) (l : List R)
      → every q (find_many p l) ≡ every (λ r. not (p r) || q r) l
  pub find_many-any :
      {R : Type 0} (p q : R → Bool) (l : List R) → any q (find_many p l) ≡ any (λ r. p r && q r) l
  pub find_latest-every :
      {R : Type 0} (key : R → ℕ) (p q : R → Bool) (l : List R)
      → every q (find_latest key p l) ≡ every (λ r. not (p r) || q r) l
  pub find_latest-IsDescending :
      {R : Type 0} (key : R → ℕ) (p : R → Bool) (l : List R)
      → IsDescending key (find_latest key p l)
  pub count_lem : {R : Type 0} (p : R → Bool) (l : List R) → count p l ≡ length (filter p l)
  pub create_lem : {R : Type 0} (r : R) (l : List R) → create r l ≡ l ++ r ∷ []
  pub update_lem :
      {R : Type 0} (p : R → Bool) (f : R → R) (l : List R)
      → update p f l ≡ map (λ r. if p r then f r else r) l
  pub delete_lem : {R : Type 0} (p : R → Bool) (l : List R) → delete p l ≡ filter (λ r. not (p r)) l
