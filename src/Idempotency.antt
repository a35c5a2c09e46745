-- ===== src/Idempotency.antt =====
-- Duplicate-submission protection (apps/api/src/common/idempotency.service.ts).
pub mod Replay
use abyte_tex.Base.{
  ℕ, Bool, Option, none, some, List, [], ◌∷◌, ◌&&◌, ◌==◌, if◌then◌else◌, truthy, any,
}
use abyte_tex.Http.{Result, ok, err}
use abyte_tex.Context.{TenantRequestContext}
use abyte_tex.Schema.{IdempotencyScope, IdempotencyKey, same_scope}
use abyte_tex.Database.{Prisma, Db, Action, ◌>>=◌, pure, find_first, idempotency_keys}

module _ ⦃P : Prisma⦄ (ctx : TenantRequestContext) (scope : IdempotencyScope) where
  unfoldable pub check_key : Option ℕ → Action (Option ℕ)
  check_key key = elim (truthy key) [
    | none ↦ pure none
    | some k ↦ do
      existing ← find_first idempotency_keys ctx (λ r. same_scope r.scope scope && (r.key == k))
      pure (elim existing [ none ↦ none | some r ↦ some r.result_id ])
  ]

  -- The unique constraint on (tenantId, scope, key) makes a second recording fail, which is caught.
  unfoldable pub record_key : Option ℕ → ℕ → Action (Unit {0})
  record_key key result_id db = elim (truthy key) [
    | none ↦ (ok tt, db)
    | some k ↦ elim (truthy ctx.tenant_id) [
      | none ↦ (ok tt, db)
      | some t ↦
          if any (λ r. (r.tenant_id == t) && (same_scope r.scope scope && (r.key == k)))
            db.idempotency_keys
          then (ok tt, db)
          else (
            ok tt,
            record db {
              idempotency_keys =
                  P.create (record { tenant_id = t; scope = scope; key = k; result_id = result_id })
                    db.idempotency_keys;
            },
          )
    ]
  ]
