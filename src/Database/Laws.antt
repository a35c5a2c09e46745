-- ===== src/Database/Laws.antt =====
-- Reasoning about requests: what holds of the outcome of one that returned, and the invariants of
-- a table under the client's writes.
use abyte_tex.Base.{
  ℕ, ◌≡◌, Bool, true, false, List, [], ◌∷◌, Memᴰ, if◌then◌else◌, any, All, All-append, All-map,
  HasUniqueKeys, HasUniqueKeys-append, HasUniqueKeys-map, refl, sym, ap, subst, Bool-cases, inl,
  inr, ◌==◌,
}
use abyte_tex.Http.{Error, Result, ok, err}
use abyte_tex.Database.Tables.{Db}
use abyte_tex.Database.Client.{Prisma}
use abyte_tex.Database.Actions.{Action, ◌>>=◌, transaction, for_each}

-- What a request that began on `db` has done if it returned.
abbrev pub Ensures : {A : Type 0} → (A → Db → Type 0) → Result A × Db → Type 0
Ensures Q (ok a, db) = Q a db
Ensures Q (err e, db) = Unit

pub Ensures-bind :
    {A B : Type 0} {Q : A → Db → Type 0} (R : B → Db → Type 0) (m : Action A) (f : A → Action B)
    (db : Db)
    → Ensures Q (m db)
    → ((a : A) (db' : Db) → Q a db' → Ensures R (f a db'))
    → Ensures R ((m >>= f) db)
Ensures-bind {Q = Q} R m f db h k = go (m db) h
  where
    go :
        (r : Result _ × Db)
        → Ensures Q r
        → Ensures R (elim r.0 [ ok a ↦ f a r.1 | err e ↦ (err e, r.1) ])
    go (ok a, d) h = k a d h
    go (err e, d) h = tt

pub Ensures-weaken :
    {A : Type 0} {Q : A → Db → Type 0} (R : A → Db → Type 0) (r : Result A × Db)
    → Ensures Q r
    → ((a : A) (db : Db) → Q a db → R a db)
    → Ensures R r
Ensures-weaken R (ok a, db) h k = k a db h
Ensures-weaken R (err e, db) h k = tt

pub Ensures-of :
    {A : Type 0} (Q : A → Db → Type 0) (r : Result A × Db)
    → ((a : A) → r.0 ≡ ok a → Q a r.1)
    → Ensures Q r
Ensures-of Q (ok a, db) k = k a refl
Ensures-of Q (err e, db) k = tt

-- A step whose outcome is known is taken.
pub Ensures-step :
    {A B : Type 0} (R : B → Db → Type 0) (m : Action A) (f : A → Action B) (db : Db) {a : A}
    {db' : Db}
    → m db ≡ (ok a, db')
    → Ensures R (f a db')
    → Ensures R ((m >>= f) db)
Ensures-step R m f db e h =
    subst (λ x. Ensures R (elim x.0 [ ok a ↦ f a x.1 | err e ↦ (err e, x.1) ])) (sym e) h

module _ {A B : Type 0} (m : Action A) (f : A → Action B) (db : Db) where
  pub bind_ok : {a : A} {db' : Db} → m db ≡ (ok a, db') → (m >>= f) db ≡ f a db'
  bind_ok e = ap {B = Result B × Db} (λ x. elim x.0 [ ok a ↦ f a x.1 | err e ↦ (err e, x.1) ]) e

  pub bind_err : {x : Error} {db' : Db} → m db ≡ (err x, db') → (m >>= f) db ≡ (err x, db')
  bind_err e = ap {B = Result B × Db} (λ x. elim x.0 [ ok a ↦ f a x.1 | err e ↦ (err e, x.1) ]) e

module _ {A : Type 0} (m : Action A) (db : Db) where
  pub transaction_ok : {a : A} {db' : Db} → m db ≡ (ok a, db') → transaction m db ≡ (ok a, db')
  transaction_ok e =
      ap {B = Result A × Db} (λ x. elim x.0 [ ok a ↦ (ok a, x.1) | err e ↦ (err e, db) ]) e

  pub transaction_err :
      {x : Error} {db' : Db} → m db ≡ (err x, db') → transaction m db ≡ (err x, db)
  transaction_err e =
      ap {B = Result A × Db} (λ x. elim x.0 [ ok a ↦ (ok a, x.1) | err e ↦ (err e, db) ]) e

-- A transaction that throws leaves the database as it was.
pub Ensures-transaction :
    {A : Type 0} (R : A → Db → Type 0) (m : Action A) (db : Db)
    → Ensures R (m db)
    → Ensures R (transaction m db)
Ensures-transaction R m db h = go (m db) h
  where
    go :
        (r : Result _ × Db)
        → Ensures R r
        → Ensures R (elim r.0 [ ok a ↦ (ok a, r.1) | err e ↦ (err e, db) ])
    go (ok a, d) h = h
    go (err e, d) h = tt

module _ ⦃P : Prisma⦄ {R : Type 0} where
  pub All-update :
      (Q : R → Type 0) (p : R → Bool) (f : R → R) (l : List R)
      → ((r : R) → Memᴰ r l → p r ≡ true → Q r → Q (f r))
      → All Q l
      → All Q (P.update p f l)
  All-update Q p f l k h = rw P.update_lem (
      All-map Q (λ r. if p r then f r else r) l
        (λ r m q. elim (Bool-cases (p r)) [ inl e ↦ rw e (k r m e q) | inr e ↦ rw e q ]) h)

  pub All-create : (Q : R → Type 0) (r : R) (l : List R) → All Q l → Q r → All Q (P.create r l)
  All-create Q r l h q = rw P.create_lem (All-append Q l h q)

  module _ (key : R → ℕ) where
    pub HasUniqueKeys-update :
        (p : R → Bool) (f : R → R) (l : List R)
        → ((r : R) → key (f r) ≡ key r)
        → HasUniqueKeys key l
        → HasUniqueKeys key (P.update p f l)
    HasUniqueKeys-update p f l e h = rw P.update_lem (
        HasUniqueKeys-map key (λ r. if p r then f r else r) l
          (λ r. elim (Bool-cases (p r)) [ inl b ↦ rw b (e r) | inr b ↦ rw b ]) h)

    pub HasUniqueKeys-create :
        (r : R) (l : List R)
        → HasUniqueKeys key l
        → any (λ s. key s == key r) l ≡ false
        → HasUniqueKeys key (P.create r l)
    HasUniqueKeys-create r l h f = rw P.create_lem (HasUniqueKeys-append key l r h f)

-- A loop keeps what each of its turns keeps.
pub Ensures-for_each :
    {A : Type 0} (I : Db → Type 0) (xs : List A) (f : A → Action (Unit {0})) (db : Db)
    → ((x : A) (d : Db) → I d → Ensures (λ _ d'. I d') (f x d))
    → I db
    → Ensures (λ _ d'. I d') (for_each xs f db)
unfolding for_each
Ensures-for_each I [] f db k h = h
Ensures-for_each I (x ∷ xs) f db k h =
    Ensures-bind (λ _ d'. I d') (f x) (λ _. for_each xs f) db (k x db h)
      (λ a d h'. Ensures-for_each I xs f d k h')

-- A loop of checks leaves the database alone.
pub for_each_reads :
    {A : Type 0} (xs : List A) (f : A → Action (Unit {0})) (db : Db)
    → ((x : A) → (f x db).1 ≡ db)
    → (for_each xs f db).1 ≡ db
unfolding for_each
for_each_reads [] f db k = refl
for_each_reads (x ∷ xs) f db k = go (f x db) (k x) (for_each_reads xs f db k)
  where
    go :
        (r : Result (Unit {0}) × Db)
        → r.1 ≡ db
        → (for_each xs f db).1 ≡ db
        → (elim r.0 as (λ _. Result (Unit {0}) × Db) [
          | ok _ ↦ for_each xs f r.1
          | err e ↦ (err e, r.1)
        ]).1
          ≡ db
    go (ok a, d) e h = subst (λ y. (for_each xs f y).1 ≡ db) (sym e) h
    go (err e, d) p h = p
