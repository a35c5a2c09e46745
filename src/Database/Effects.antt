-- ===== src/Database/Effects.antt =====
-- Actions that only read, actions that never throw, and actions that leave nothing behind when they
-- throw.
use abyte_tex.Base.{◌≡◌, refl, sym, subst, ap, List, [], ◌∷◌, arith, Memᴰ}
use abyte_tex.Http.{Error, Result, ok, err}
use abyte_tex.Database.Tables.{Db}
use abyte_tex.Database.Actions.{Action, ◌>>=◌, transaction, for_each}
use abyte_tex.Database.Laws.{Ensures}

abbrev pub IsReading : {A : Type 0} → Action A → Type 0
IsReading m = (db : Db) → (m db).1 ≡ db

abbrev pub IsAtomic : {A : Type 0} → Action A → Type 0
IsAtomic m = (db : Db) (x : Error) → (m db).0 ≡ err x → (m db).1 ≡ db

abbrev pub Returns : {A : Type 0} → Result A → Type 0
Returns (ok a) = Unit
Returns (err e) = ⊥

abbrev pub IsTotal : {A : Type 0} → Action A → Type 0
IsTotal m = (db : Db) → Returns (m db).0

module _ {A B : Type 0} (m : Action A) (f : A → Action B) where
  pub IsReading-bind : IsReading m → ((a : A) → IsReading (f a)) → IsReading (m >>= f)
  IsReading-bind h k db = go (m db) (h db)
    where
      go :
          (r : Result A × Db)
          → r.1 ≡ db
          → (elim r.0 as (λ _. Result B × Db) [ ok a ↦ f a r.1 | err e ↦ (err e, r.1) ]).1 ≡ db
      go (ok a, d) e = subst (λ y. (f a y).1 ≡ db) (sym e) (k a db)
      go (err x, d) e = e

  pub IsAtomic-bind : IsReading m → ((a : A) → IsAtomic (f a)) → IsAtomic (m >>= f)
  IsAtomic-bind h k db x = go (m db) (h db)
    where
      go :
          (r : Result A × Db)
          → r.1 ≡ db
          → (elim r.0 as (λ _. Result B × Db) [ ok a ↦ f a r.1 | err e ↦ (err e, r.1) ]).0 ≡ err x
          → (elim r.0 as (λ _. Result B × Db) [ ok a ↦ f a r.1 | err e ↦ (err e, r.1) ]).1 ≡ db
      go (ok a, d) e = subst (λ y. (f a y).0 ≡ err x → (f a y).1 ≡ db) (sym e) (k a db x)
      go (err z, d) e = λ _. e

  -- What follows an atomic action must not throw.
  pub IsAtomic-then : IsAtomic m → ((a : A) → IsTotal (f a)) → IsAtomic (m >>= f)
  IsAtomic-then h k db x = go (m db) (h db)
    where
      fails : (r : Result B) → Returns r → r ≡ err x → ⊥
      fails (ok b) _ e = grind arith
      fails (err z) v _ = v

      go :
          (r : Result A × Db)
          → ((y : Error) → r.0 ≡ err y → r.1 ≡ db)
          → (elim r.0 as (λ _. Result B × Db) [ ok a ↦ f a r.1 | err e ↦ (err e, r.1) ]).0 ≡ err x
          → (elim r.0 as (λ _. Result B × Db) [ ok a ↦ f a r.1 | err e ↦ (err e, r.1) ]).1 ≡ db
      go (ok a, d) e p = absurd (fails (f a d).0 (k a d) p)
      go (err z, d) e _ = e z refl

pub IsAtomic-transaction : {A : Type 0} (m : Action A) → IsAtomic (transaction m)
IsAtomic-transaction {A = A} m db x = go (m db)
  where
    go :
        (r : Result A × Db)
        → (elim r.0 as (λ _. Result A × Db) [ ok a ↦ (ok a, r.1) | err e ↦ (err e, db) ]).0 ≡ err x
        → (elim r.0 as (λ _. Result A × Db) [ ok a ↦ (ok a, r.1) | err e ↦ (err e, db) ]).1 ≡ db
    go (ok a, d) e = grind arith
    go (err z, d) _ = refl

-- What an action that only reads ensures.
pub IsReading-Ensures :
    {A : Type 0} (I : Db → Type 0) (m : Action A) (db : Db)
    → IsReading m
    → I db
    → Ensures (λ _ d. I d) (m db)
IsReading-Ensures {A = A} I m db h i = go (m db) (h db)
  where
    go : (r : Result A × Db) → r.1 ≡ db → Ensures (λ _ d. I d) r
    go (ok a, d) e = subst I (sym e) i
    go (err z, d) _ = tt

-- What returned after an action that only reads: the action returned, and the rest returned on the
-- same database.
pub Returns-bind :
    {A B : Type 0} (m : Action A) (f : A → Action B) (db : Db)
    → IsReading m
    → Returns ((m >>= f) db).0
    → (a : A) × (m db ≡ (ok a, db)) × Returns (f a db).0
Returns-bind {A = A} {B = B} m f db h = go (m db) (h db)
  where
    go :
        (r : Result A × Db)
        → r.1 ≡ db
        → Returns (elim r.0 as (λ _. Result B × Db) [ ok a ↦ f a r.1 | err e ↦ (err e, r.1) ]).0
        → (a : A) × (r ≡ (ok a, db)) × Returns (f a db).0
    go (ok a, d) e k = (a, ap (λ x. (ok a, x)) e, subst (λ y. Returns (f a y).0) e k)
    go (err z, d) e k = absurd k

-- A loop of checks that returned has passed every element.
pub Returns-for_each :
    {A : Type 0} (xs : List A) (f : A → Action (Unit {0})) (db : Db) (x : A)
    → ((y : A) → IsReading (f y))
    → Memᴰ x xs
    → Returns (for_each xs f db).0
    → Returns (f x db).0
unfolding for_each
Returns-for_each [] f db x h m k = elim m [ ]
Returns-for_each (y ∷ ys) f db x h m k =
    let (u, e, rest) = Returns-bind (f y) (λ _. for_each ys f) db (h y) k in
    elim m [
      | Memᴰ.head p ↦ subst (λ z. Returns (f z db).0) (sym p) (subst (λ r. Returns r.0) (sym e) tt)
      | Memᴰ.tail n ↦ Returns-for_each ys f db x h n rest
    ]

-- What an action keeps when it returns, it keeps when it throws too, if it then leaves nothing.
pub Ensures-IsAtomic :
    {A : Type 0} (I : Db → Type 0) (m : Action A) (db : Db)
    → Ensures (λ _ d. I d) (m db)
    → IsAtomic m
    → I db
    → I (m db).1
Ensures-IsAtomic {A = A} I m db h a i = go (m db) h (a db)
  where
    go :
        (r : Result A × Db)
        → Ensures (λ _ d. I d) r
        → ((x : Error) → r.0 ≡ err x → r.1 ≡ db)
        → I r.1
    go (ok b, d) k _ = k
    go (err x, d) _ k = subst I (sym (k x refl)) i

pub IsTotal-bind :
    {A B : Type 0} (m : Action A) (f : A → Action B)
    → IsTotal m
    → ((a : A) → IsTotal (f a))
    → IsTotal (m >>= f)
IsTotal-bind {A = A} {B = B} m f h k db = go (m db) (h db)
  where
    go :
        (r : Result A × Db)
        → Returns r.0
        → Returns (elim r.0 as (λ _. Result B × Db) [ ok a ↦ f a r.1 | err e ↦ (err e, r.1) ]).0
    go (ok a, d) _ = k a d
    go (err x, d) v = v

pub IsTotal-for_each :
    {A : Type 0} (xs : List A) (f : A → Action (Unit {0}))
    → ((x : A) → IsTotal (f x))
    → IsTotal (for_each xs f)
unfolding for_each
IsTotal-for_each [] f h db = tt
IsTotal-for_each (x ∷ xs) f h db =
    IsTotal-bind (f x) (λ _. for_each xs f) (h x) (λ _. IsTotal-for_each xs f h) db
