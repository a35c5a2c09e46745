-- ===== src/Database/Actions.antt =====
-- Requests as actions on the database: state and exceptions. What a request wrote before it threw
-- stays written, unless it stood in a `$transaction`. Each query through the tenant-scoped client
-- first reads the tenant of the request and throws a 403 without one, as the extension of
-- apps/api/src/prisma/prisma.service.ts does.
use abyte_tex.Base.{
  ℕ, ◌+◌, Bool, Option, none, some, List, [], ◌∷◌, ◌&&◌, if◌then◌else◌, truthy, any,
}
use abyte_tex.Http.{Error, Result, ok, err, forbidden, record_not_found, unique_violation}
use abyte_tex.Context.{TenantRequestContext}
use abyte_tex.Schema.{AuditAction, EntityType}
use abyte_tex.Database.Tables.{Db, Table}
use abyte_tex.Database.Client.{Prisma}

abbrev pub Action : Type 0 → Type 0
Action A = Db → Result A × Db

infixl 5 ◌>>=◌ ◌>>◌
abbrev pub ◌>>=◌ : {A B : Type 0} → Action A → (A → Action B) → Action B
◌>>=◌ m f db = let (r, db') = m db in elim r [ ok a ↦ f a db' | err e ↦ (err e, db') ]

abbrev pub ◌>>◌ : {A B : Type 0} → Action A → Action B → Action B
m >> k = m >>= λ _. k

module _ {A : Type 0} where
  abbrev pub pure : A → Action A
  pure a db = (ok a, db)

  abbrev pub throw : Error → Action A
  throw e db = (err e, db)

  abbrev pub check : Result A → Action A
  check r db = (r, db)

  abbrev pub or_throw : Option A → Error → Action A
  or_throw none e = throw e
  or_throw (some a) _ = pure a

  -- `$transaction(async (tx) => …)`: what it wrote is rolled back if it throws.
  abbrev pub transaction : Action A → Action A
  transaction m db = let (r, db') = m db in elim r [ ok a ↦ (ok a, db') | err e ↦ (err e, db) ]

abbrev pub reject_if : Bool → Error → Action (Unit {0})
reject_if c e = if c then throw e else pure tt

-- `for (const x of xs) …`
unfoldable pub for_each : {A : Type 0} → List A → (A → Action (Unit {0})) → Action (Unit {0})
for_each [] f db = (ok tt, db)
for_each (x ∷ xs) f db = elim (f x db).0 [
  | ok _ ↦ for_each xs f (f x db).1
  | err e ↦ (err e, (f x db).1)
]

-- The tenant that the extension adds to every query, or its 403.
abbrev pub scope : TenantRequestContext → Action ℕ
scope ctx = or_throw (truthy ctx.tenant_id) forbidden

-- `AuditService.log`, which writes through the unscoped client.
abbrev pub log : TenantRequestContext → AuditAction → EntityType → ℕ → Action (Unit {0})
log ctx action entity_type entity_id db = (
  ok tt,
  record db {
    audit_log =
        record {
          tenant_id = ctx.tenant_id;
          user_id = ctx.user_id;
          action = action;
          entity_type = entity_type;
          entity_id = entity_id;
        }
        ∷ db.audit_log;
  },
)

module _ ⦃P : Prisma⦄ {R : Type 0} (table : Table R) where
  abbrev pub find_first : TenantRequestContext → (R → Bool) → Action (Option R)
  find_first ctx p = do
    t ← scope ctx
    λ db. (ok (P.find_first (λ r. table.owned t r && p r) (table.rows db)), db)

  abbrev pub find_least : (R → ℕ) → TenantRequestContext → (R → Bool) → Action (Option R)
  find_least key ctx p = do
    t ← scope ctx
    λ db. (ok (P.find_least key (λ r. table.owned t r && p r) (table.rows db)), db)

  abbrev pub find_many : TenantRequestContext → (R → Bool) → Action (List R)
  find_many ctx p = do
    t ← scope ctx
    λ db. (ok (P.find_many (λ r. table.owned t r && p r) (table.rows db)), db)

  abbrev pub count : TenantRequestContext → (R → Bool) → Action ℕ
  count ctx p = do
    t ← scope ctx
    λ db. (ok (P.count (λ r. table.owned t r && p r) (table.rows db)), db)

  -- `create`, given the row for a tenant and an identifier.
  abbrev pub create : TenantRequestContext → (ℕ → ℕ → R) → Action R
  create ctx row = do
    t ← scope ctx
    λ db.
        let r = row t (P.cuid db.generated) in
        let db' = record db { generated = db.generated + 1 } in
        (ok r, table.put (P.create r (table.rows db')) db')

  -- `create` where a unique constraint says which rows may not stand together.
  abbrev pub create_unique : (R → R → Bool) → TenantRequestContext → (ℕ → ℕ → R) → Action R
  create_unique clash ctx row = do
    t ← scope ctx
    λ db.
        if any (clash (row t (P.cuid db.generated))) (table.rows db)
        then (err unique_violation, db)
        else create ctx row db

  abbrev pub update_many : TenantRequestContext → (R → Bool) → (R → R) → Action (Unit {0})
  update_many ctx p f = do
    t ← scope ctx
    λ db. (ok tt, table.put (P.update (λ r. table.owned t r && p r) f (table.rows db)) db)

  -- `update` throws if no row fits, and returns the row as it then is.
  abbrev pub update : TenantRequestContext → (R → Bool) → (R → R) → Action R
  update ctx p f = do
    found ← find_first ctx p
    r ← or_throw found record_not_found
    update_many ctx p f
    pure (f r)
