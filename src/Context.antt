-- ===== src/Context.antt =====
-- The request context (apps/api/src/common/tenant-context.ts) and the factory access checks
-- (apps/api/src/common/factory-access.util.ts).
pub mod Laws
use abyte_tex.Base.{
  ℕ, Bool, true, false, Option, none, some, List, [], ◌∷◌, ◌==◌, if◌then◌else◌, truthy, any,
}
use abyte_tex.Http.{Result, ok, err, forbidden}

-- `now` is the clock as the request reads it.
pub record TenantRequestContext : Type 0 where
  pub user_id : ℕ
  pub tenant_id : Option ℕ
  pub is_platform_admin : Bool
  pub factory_ids : List ℕ
  pub now : ℕ

-- `Array.prototype.includes`
abbrev pub includes : ℕ → List ℕ → Bool
includes x = any (λ y. y == x)

unfoldable pub assert_factory_access : List ℕ → Option ℕ → Result (Unit {0})
assert_factory_access factory_ids factory_id = elim (truthy factory_id) [
  | none ↦ ok tt
  | some f ↦ elim factory_ids [
    | [] ↦ ok tt
    | g ∷ gs ↦ if includes f (g ∷ gs) then ok tt else err forbidden
  ]
]

-- The `factoryId` clause of a list query.
pub data FactoryClause : Type 0 where
  exactly : ℕ → FactoryClause
  one_of : List ℕ → FactoryClause
  no_clause : FactoryClause

unfoldable pub factory_scope_filter : List ℕ → Option ℕ → FactoryClause
factory_scope_filter factory_ids factory_id = elim (truthy factory_id) [
  | some f ↦ exactly f
  | none ↦ elim factory_ids [ [] ↦ no_clause | g ∷ gs ↦ one_of (g ∷ gs) ]
]

-- Whether a row of this factory passes the clause.
abbrev pub admits : FactoryClause → ℕ → Bool
admits (exactly f) g = g == f
admits (one_of fs) g = includes g fs
admits no_clause g = true
