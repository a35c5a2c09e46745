-- ===== src/Schema/Masters.antt =====
-- The idempotency keys and the audit log
-- (prisma/schema.prisma).
use abyte_tex.Base.{ℕ, Option, Bool, ◌==◌}

-- The scopes that the services pass to the idempotency service.
pub data IdempotencyScope : Type 0 where
  sales_order_create purchase_order_create goods_receipt_create dispatch_create : IdempotencyScope

pub record IdempotencyKey : Type 0 where
  pub tenant_id : ℕ
  pub scope : IdempotencyScope
  pub key : ℕ
  pub result_id : ℕ

pub data AuditAction : Type 0 where
  create update approve reject logout permission_change config_change : AuditAction

-- `no_entity` is the absent type of an entry that names none.
pub data EntityType : Type 0 where
  stock_movement sales_order production_order production_batch material_consumption : EntityType
  purchase_request purchase_order goods_receipt dispatch quality_inspection : EntityType
  maintenance_job downtime user role attendance payroll_period tenant no_entity : EntityType
  factory warehouse department shift machine employee : EntityType
  customer supplier material product cost_sheet : EntityType

pub record AuditLog : Type 0 where
  pub tenant_id : Option ℕ
  pub user_id : ℕ
  pub action : AuditAction
  pub entity_type : EntityType
  pub entity_id : ℕ

abbrev pub scope_index : IdempotencyScope → ℕ
scope_index sales_order_create = 0
scope_index purchase_order_create = 1
scope_index goods_receipt_create = 2
scope_index dispatch_create = 3

abbrev pub same_scope : IdempotencyScope → IdempotencyScope → Bool
same_scope a b = scope_index a == scope_index b
