-- ===== src/Database/Raw.antt =====
-- The unscoped client `prisma.raw` (apps/api/src/prisma/prisma.service.ts): its queries reach the
-- rows of every tenant.
use abyte_tex.Base.{ℕ, ◌+◌, Bool, Option, List}
use abyte_tex.Http.{ok, record_not_found}
use abyte_tex.Database.Tables.{Table}
use abyte_tex.Database.Client.{Prisma}
use abyte_tex.Database.Actions.{Action, ◌>>=◌, ◌>>◌, pure, or_throw}

module _ ⦃P : Prisma⦄ {R : Type 0} (table : Table R) where
  abbrev pub find_first : (R → Bool) → Action (Option R)
  find_first p db = (ok (P.find_first p (table.rows db)), db)

  abbrev pub find_many : (R → Bool) → Action (List R)
  find_many p db = (ok (P.find_many p (table.rows db)), db)

  abbrev pub find_latest : (R → ℕ) → (R → Bool) → Action (List R)
  find_latest key p db = (ok (P.find_latest key p (table.rows db)), db)

  abbrev pub count : (R → Bool) → Action ℕ
  count p db = (ok (P.count p (table.rows db)), db)

  -- `create`, given the row for an identifier.
  abbrev pub create : (ℕ → R) → Action R
  create row db =
      let r = row (P.cuid db.generated) in
      let db' = record db { generated = db.generated + 1 } in
      (ok r, table.put (P.create r (table.rows db')) db')

  abbrev pub update_many : (R → Bool) → (R → R) → Action (Unit {0})
  update_many p f db = (ok tt, table.put (P.update p f (table.rows db)) db)

  -- `update` throws if no row fits.
  abbrev pub update : (R → Bool) → (R → R) → Action R
  update p f = do
    found ← find_first p
    r ← or_throw found record_not_found
    update_many p f
    pure (f r)

  abbrev pub delete_many : (R → Bool) → Action (Unit {0})
  delete_many p db = (ok tt, table.put (P.delete p (table.rows db)) db)
