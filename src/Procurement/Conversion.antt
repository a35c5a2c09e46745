-- ===== src/Procurement/Conversion.antt =====
-- A purchase order is created against an approved request only.
use abyte_tex.Base.{ℕ, ◌≡◌, true, none, some, ◌&&◌, ◌==◌, truthy, arith}
use abyte_tex.Context.{TenantRequestContext}
use abyte_tex.Schema.{PurchaseRequest, PurchaseRequestStatus, same_purchase_request_status}
use abyte_tex.Database.{Prisma, Db}
use abyte_tex.Database.Effects.{Returns}
use abyte_tex.Idempotency.{check_key}
use abyte_tex.Procurement.{CreatePurchaseOrderDto, check_request, get_request_by_id, create_order}

module _ ⦃P : Prisma⦄ (ctx : TenantRequestContext) (t : ℕ) (e : truthy ctx.tenant_id ≡ some t) where
  -- When the creation of a purchase order without an idempotency key returns, and a purchase
  -- request is found for the one that it names, that request was APPROVED.
  pub create_order-approved :
      (dto : CreatePurchaseOrderDto) (user_id id : ℕ) (r : PurchaseRequest) (db : Db)
      → truthy dto.idempotency_key ≡ none
      → truthy dto.purchase_request_id ≡ some id
      → P.find_first (λ x. (x.tenant_id == t) && (x.id == id)) db.purchase_requests ≡ some r
      → Returns (create_order ctx dto user_id db).0
      → same_purchase_request_status r.status PurchaseRequestStatus.approved ≡ true
  unfolding create_order check_key check_request get_request_by_id
  create_order-approved dto user_id id r db k n f returned = ground arith
