-- ===== src/Tests.antt =====
-- A client that queries lists, in which the properties are run on small databases.
pub mod AccessSamples
pub mod PlantSamples
pub mod Samples
pub mod InventoryRuns
mod WebRuns
mod CatalogueRuns
mod DispatchRuns
mod HistoryRuns
mod NotificationRuns
mod WorkflowRuns
mod ProcurementRuns
mod AccessRuns
mod PlantRuns
use abyte_tex.Base.{
  ℕ, ℤ, pos, negsuc, neg, suc, ◌/◌, ◌≤◌, ◌≡◌, ◌+◌, refl, sym, ap, subst, ◌∙◌, Bool, true, false,
  Option, none, some, List, [], ◌∷◌, ◌++◌, Memᴰ, map, if◌then◌else◌, ◌&&◌, not, ◌||◌, every, any,
  length, filter, leb, inl, inr, All, Bool-cases, Option-cases, arith,
}
use abyte_tex.Database.{Prisma, IsDescending, IsRounded}

module _ {R : Type 0} where
  unfoldable pub list_first : (R → Bool) → List R → Option R
  list_first p [] = none
  list_first p (r ∷ l) = if p r then some r else list_first p l

  abbrev pub smaller : (R → ℕ) → R → Option R → R
  smaller key r none = r
  smaller key r (some s) = if leb (key r) (key s) then r else s

  unfoldable pub list_least : (R → ℕ) → (R → Bool) → List R → Option R
  list_least key p [] = none
  list_least key p (r ∷ l) =
      let rest = list_least key p l in if p r then some (smaller key r rest) else rest

  pub list_first-some :
      (p : R → Bool) (l : List R) (r : R) → list_first p l ≡ some r → Memᴰ r l × (p r ≡ true)
  unfolding list_first
  list_first-some p [] r e = ground arith
  list_first-some p (s ∷ l) r e = elim (Bool-cases (p s)) [
    | inl c ↦ (Memᴰ.head (ground arith), ground arith)
    | inr c ↦ let (m, q) = list_first-some p l r (rw c at e) in (Memᴰ.tail m, q)
  ]

  pub list_first-none :
      (p : R → Bool) (l : List R) (r : R) → list_first p l ≡ none → Memᴰ r l → p r ≡ false
  unfolding list_first
  list_first-none p [] r e m = elim m [ ]
  list_first-none p (s ∷ l) r e (Memᴰ.head h) = ground arith
  list_first-none p (s ∷ l) r e (Memᴰ.tail m) = list_first-none p l r (ground arith) m

  pub list_least-none :
      (key : R → ℕ) (p : R → Bool) (l : List R) (r : R)
      → list_least key p l ≡ none
      → Memᴰ r l
      → p r ≡ false
  unfolding list_least
  list_least-none key p [] r e m = elim m [ ]
  list_least-none key p (s ∷ l) r e (Memᴰ.head h) = ground arith
  list_least-none key p (s ∷ l) r e (Memᴰ.tail m) = list_least-none key p l r (ground arith) m

  pub list_least-some :
      (key : R → ℕ) (p : R → Bool) (l : List R) (r : R)
      → list_least key p l ≡ some r
      → Memᴰ r l × (p r ≡ true)
  unfolding list_least
  list_least-some key p [] r e = ground arith
  list_least-some key p (s ∷ l) r e = elim (Option-cases (list_least key p l)) [
    | inl n ↦ (Memᴰ.head (ground arith), ground arith)
    | inr (u, k) ↦
        let (m, q) = list_least-some key p l u k in
        elim (Bool-cases (p s && leb (key s) (key u))) [
          | inl c ↦ (Memᴰ.head (ground arith), ground arith)
          | inr c ↦ ((Memᴰ.tail (subst (λ x. Memᴰ x l) (ground arith) m), ground arith))
        ]
  ]

  pub list_least-le :
      (key : R → ℕ) (p : R → Bool) (l : List R) (r s : R)
      → list_least key p l ≡ some r
      → Memᴰ s l
      → p s ≡ true
      → key r ≤ key s
  unfolding list_least
  list_least-le key p [] r s e m q = elim m [ ]
  list_least-le key p (x ∷ l) r s e (Memᴰ.head h) q = elim (Option-cases (list_least key p l)) [
    | inl n ↦ ground arith
    | inr (u, k) ↦ ground arith
  ]
  list_least-le key p (x ∷ l) r s e (Memᴰ.tail m) q = elim (Option-cases (list_least key p l)) [
    | inl n ↦ ground (arith, list_least-none key p l s n m)
    | inr (u, k) ↦ ground (arith, list_least-le key p l u s k m q)
  ]

  pub filter-every :
      (p q : R → Bool) (l : List R) → every q (filter p l) ≡ every (λ r. not (p r) || q r) l
  filter-every p q [] = refl
  filter-every p q (r ∷ l) = ground (arith, filter-every p q l)

  pub filter-any : (p q : R → Bool) (l : List R) → any q (filter p l) ≡ any (λ r. p r && q r) l
  filter-any p q [] = refl
  filter-any p q (r ∷ l) = ground (arith, filter-any p q l)

  insert : (R → ℕ) → R → List R → List R
  insert key r [] = r ∷ []
  insert key r (s ∷ l) =
      let rest = insert key r l in if leb (key s) (key r) then r ∷ s ∷ l else s ∷ rest

  pub list_latest : (R → ℕ) → (R → Bool) → List R → List R
  list_latest key p [] = []
  list_latest key p (r ∷ l) =
      let rest = list_latest key p l in if p r then insert key r rest else rest

  every-insert :
      (key : R → ℕ) (q : R → Bool) (r : R) (l : List R) → every q (insert key r l) ≡ every q (r ∷ l)
  unfolding insert
  every-insert key q r [] = refl
  every-insert key q r (s ∷ l) = ground (arith, every-insert key q r l)

  pub list_latest-every :
      (key : R → ℕ) (p q : R → Bool) (l : List R)
      → every q (list_latest key p l) ≡ every (λ r. not (p r) || q r) l
  unfolding list_latest
  list_latest-every key p q [] = refl
  list_latest-every key p q (r ∷ l) =
      ground (arith, list_latest-every key p q l, every-insert key q r (list_latest key p l))

  All-insert :
      (Q : R → Type 0) (key : R → ℕ) (r : R) (l : List R) → Q r → All Q l → All Q (insert key r l)
  unfolding insert
  All-insert Q key r [] a h = (a, tt)
  All-insert Q key r (s ∷ l) a h = elim (Bool-cases (leb (key s) (key r))) [
    | inl c ↦ rw c (a, h)
    | inr c ↦ rw c (h.0, All-insert Q key r l a h.1)
  ]

  All-weaken :
      (key : R → ℕ) (m n : ℕ) (l : List R) → m ≤ n → All (λ s. key s ≤ m) l → All (λ s. key s ≤ n) l
  All-weaken key m n [] h a = tt
  All-weaken key m n (r ∷ l) h a = (let b = a.0 in omega arith, All-weaken key m n l h a.1)

  insert-IsDescending :
      (key : R → ℕ) (r : R) (l : List R) → IsDescending key l → IsDescending key (insert key r l)
  unfolding insert
  insert-IsDescending key r [] h = (tt, tt)
  insert-IsDescending key r (s ∷ l) h = elim (Bool-cases (leb (key s) (key r))) [
    | inl c ↦ rw c ((ground arith, All-weaken key (key s) (key r) l (ground arith) h.0), h)
    | inr c ↦ rw c (
      All-insert (λ x. key x ≤ key s) key r l (ground arith) h.0,
      insert-IsDescending key r l h.1,
    )
  ]

  pub list_latest-IsDescending :
      (key : R → ℕ) (p : R → Bool) (l : List R) → IsDescending key (list_latest key p l)
  unfolding list_latest
  list_latest-IsDescending key p [] = tt
  list_latest-IsDescending key p (r ∷ l) = elim (Bool-cases (p r)) [
    | inl c ↦
        rw c (insert-IsDescending key r (list_latest key p l) (list_latest-IsDescending key p l))
    | inr c ↦ rw c (list_latest-IsDescending key p l)
  ]

-- Half a hundredth away from zero.
unfoldable pub half_up : ℤ → ℤ
half_up (pos n) = pos ((n + 500) / 1000)
half_up (negsuc n) = neg (pos ((suc n + 500) / 1000))

pub half_up-IsRounded : (x : ℤ) → IsRounded x (half_up x)
unfolding half_up
half_up-IsRounded (pos n) = (ground arith, ground arith)
half_up-IsRounded (negsuc n) = (ground arith, ground arith)

instance abbrev pub list_prisma : Prisma
list_prisma = record {
  find_first = list_first;
  find_least = list_least;
  find_many = filter;
  find_latest = list_latest;
  count = λ p l. length (filter p l);
  create = λ r l. l ++ r ∷ [];
  update = λ p f l. map (λ r. if p r then f r else r) l;
  delete = λ p l. filter (λ r. not (p r)) l;
  to_cents = half_up;
  cuid = λ n. n + 1;
  to_cents-IsRounded = half_up-IsRounded;
  find_first-some = list_first-some;
  find_first-none = list_first-none;
  find_least-some = list_least-some;
  find_least-le = list_least-le;
  find_least-none = list_least-none;
  find_many-every = filter-every;
  find_many-any = filter-any;
  find_latest-every = list_latest-every;
  find_latest-IsDescending = list_latest-IsDescending;
  count_lem = λ p l. refl;
  create_lem = λ r l. refl;
  update_lem = λ p f l. refl;
  delete_lem = λ p l. refl;
}
