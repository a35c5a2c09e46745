-- ===== src/Idempotency/Replay.antt =====
-- A retry with the key of a request that went through finds the result of that request.
use abyte_tex.Base.{ℕ, ◌≡◌, false, Option, none, some, ◌&&◌, ◌==◌, truthy, any, arith}
use abyte_tex.Http.{ok}
use abyte_tex.Context.{TenantRequestContext}
use abyte_tex.Schema.{IdempotencyScope, IdempotencyKey, same_scope}
use abyte_tex.Database.{Prisma, Db}
use abyte_tex.Database.Creation.{none-any, find_first-create}
use abyte_tex.Idempotency.{check_key, record_key}

module _ ⦃P : Prisma⦄ where
  -- For a request with a tenant and a key that is not empty, a key that was not recorded before and
  -- is recorded now is found, with the result that it was recorded for.
  pub check_key-record_key :
      (ctx : TenantRequestContext) (scope : IdempotencyScope) (t k result_id : ℕ) (key : Option ℕ)
      (db : Db)
      → truthy ctx.tenant_id ≡ some t
      → truthy key ≡ some k
      → P.find_first
          (λ r. (r.tenant_id == t) && (same_scope r.scope scope && (r.key == k)))
          db.idempotency_keys
        ≡ none
      → (check_key ctx scope key (record_key ctx scope key result_id db).1).0 ≡ ok (some result_id)
  unfolding check_key record_key
  check_key-record_key ctx scope t k result_id key db e ek h =
      let p =
        λ (r : IdempotencyKey). (r.tenant_id == t) && (same_scope r.scope scope && (r.key == k)) in
      let row : IdempotencyKey = record {
        tenant_id = t;
        scope = scope;
        key = k;
        result_id = result_id;
      } in
      let none_there : any p db.idempotency_keys ≡ false = none-any p db.idempotency_keys h in
      let there : P.find_first p (P.create row db.idempotency_keys) ≡ some row =
        find_first-create p row db.idempotency_keys none_there (ground arith) in
      ground (arith, none_there, there)
