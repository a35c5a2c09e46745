-- ===== src/TenantScope/Isolation.antt =====
-- What a scoped query can reach.
use abyte_tex.Base.{
  ℕ, ◌≡◌, refl, ◌∙◌, ap, Bool, true, Option, none, some, List, [], ◌∷◌, ◌++◌, ◌==◌, ◌==?◌, ◌&&◌,
  not, map, filter, every, if◌then◌else◌, truthy, arith,
}
use abyte_tex.Http.{ok}
use abyte_tex.Context.{TenantRequestContext}
use abyte_tex.TenantScope.{
  Model, Operation, Fields, Args, tenant_id, with_tenant, or_empty, is_scoped_model, scopes_where,
  inject_tenant_id, all_operations, one_of, rows_of,
}

-- The value of a field, and a filter on equal values.
unfoldable pub lookup : ℕ → Fields → Option ℕ
lookup k [] = none
lookup k (f ∷ fs) = if f.0 == k then some f.1 else lookup k fs

abbrev pub matches : Fields → Fields → Bool
matches where_ row = every (λ f. lookup f.0 row ==? some f.1) where_

-- The filter without what it says of the tenant.
abbrev pub untenanted : Fields → Fields
untenanted = filter (λ f. not (f.0 == tenant_id))

every-append :
    {A : Type 0} (p : A → Bool) (xs : List A) (y : A) → every p (xs ++ y ∷ []) ≡ p y && every p xs
every-append p [] y = ground arith
every-append p (x ∷ xs) y = ground (arith, every-append p xs y)

lookup-with_tenant :
    (k t : ℕ) (fields : Fields)
    → lookup k (with_tenant t fields) ≡ (if k == tenant_id then some t else lookup k fields)
unfolding lookup
lookup-with_tenant k t [] = ground arith
lookup-with_tenant k t (f ∷ fs) = ground (arith, lookup-with_tenant k t fs)

where_lem :
    (operation : Operation) (args : Args) (t : ℕ)
    → scopes_where operation ≡ true
    → (inject_tenant_id operation args t).where_ ≡ some (with_tenant t (or_empty args.where_))
unfolding inject_tenant_id scopes_where
where_lem operation args t h = ground arith

-- A query that the extension scopes reaches exactly the rows of the tenant of the request that fit
-- the caller's filter, whatever the caller's filter says of the tenant: for a model and an operation
-- that are scoped, in a request with a tenant.
pub all_operations-matches :
    (model : Model) (operation : Operation) (args : Args) (ctx : TenantRequestContext) (t : ℕ)
    (row : Fields)
    → is_scoped_model model ≡ true
    → scopes_where operation ≡ true
    → truthy ctx.tenant_id ≡ some t
    → (sent : Args) × (all_operations model operation args (some ctx) ≡ ok sent)
      × (matches (or_empty sent.where_) row
          ≡ (lookup tenant_id row ==? some t) && matches (untenanted (or_empty args.where_)) row)
unfolding all_operations
all_operations-matches model operation args ctx t row scoped wheres tenant = (
  inject_tenant_id operation args t,
  ground arith,
  ap (λ w. matches (or_empty w) row) (where_lem operation args t wheres)
      ∙ every-append (λ f. lookup f.0 row ==? some f.1) (untenanted (or_empty args.where_))
          (tenant_id, t),
)

-- The rows that a query writes whole.
abbrev pub written : Operation → Args → List Fields
written Operation.create args = one_of args.data_ ∷ []
written Operation.create_many args = rows_of args.data_
written Operation.upsert args = or_empty args.create_ ∷ or_empty args.update_ ∷ []
written _ args = []

map_cong : {A B : Type 0} (f g : A → B) (xs : List A) → ((x : A) → f x ≡ g x) → map f xs ≡ map g xs
map_cong f g [] h = refl
map_cong f g (x ∷ xs) h = rw (h x, map_cong f g xs h) refl

map-map :
    {A B D : Type 0} (g : B → D) (f : A → B) (xs : List A)
    → map g (map f xs) ≡ map (λ x. g (f x)) xs
map-map g f [] = refl
map-map g f (x ∷ xs) = ap (λ l. g (f x) ∷ l) (map-map g f xs)

-- Every row that a `create`, a `createMany` or an `upsert` sends is the caller's, with the tenant of
-- the request in place of whatever the caller wrote there.
pub inject_tenant_id-written :
    (operation : Operation) (args : Args) (t k : ℕ)
    → map (lookup k) (written operation (inject_tenant_id operation args t))
      ≡ map (λ r. if k == tenant_id then some t else lookup k r) (written operation args)
unfolding inject_tenant_id scopes_where
inject_tenant_id-written Operation.create args t k =
    ap (λ o. o ∷ []) (lookup-with_tenant k t (one_of args.data_))
inject_tenant_id-written Operation.create_many args t k =
    map-map (lookup k) (with_tenant t) (rows_of args.data_)
    ∙ map_cong _ _ (rows_of args.data_) (lookup-with_tenant k t)
inject_tenant_id-written Operation.upsert args t k =
    rw
      (
        lookup-with_tenant k t (or_empty args.create_),
        lookup-with_tenant k t (or_empty args.update_),
      )
      refl
inject_tenant_id-written Operation.find_first args t k = refl
inject_tenant_id-written Operation.find_first_or_throw args t k = refl
inject_tenant_id-written Operation.find_many args t k = refl
inject_tenant_id-written Operation.find_unique args t k = refl
inject_tenant_id-written Operation.find_unique_or_throw args t k = refl
inject_tenant_id-written Operation.create_many_and_return args t k = refl
inject_tenant_id-written Operation.update args t k = refl
inject_tenant_id-written Operation.update_many args t k = refl
inject_tenant_id-written Operation.delete args t k = refl
inject_tenant_id-written Operation.delete_many args t k = refl
inject_tenant_id-written Operation.count args t k = refl
inject_tenant_id-written Operation.aggregate args t k = refl
inject_tenant_id-written Operation.group_by args t k = refl
