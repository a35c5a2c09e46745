-- ===== src/TenantScope.antt =====
-- The query extension that scopes the client to a tenant (apps/api/src/prisma/prisma.service.ts and
-- apps/api/src/prisma/tenant-scoped-models.ts). A filter or a row is the list of its fields, a field
-- and its value being numbers.
pub mod Isolation
use abyte_tex.Base.{
  ℕ, ◌≡◌, refl, ◌∙◌, ap, Bool, true, false, Option, none, some, List, [], ◌∷◌, ◌++◌, ◌==◌, ◌==?◌,
  ◌&&◌, not, map, filter, every, if◌then◌else◌, truthy, arith,
}
use abyte_tex.Http.{Result, ok, err, forbidden}
use abyte_tex.Context.{TenantRequestContext}

pub data Model : Type 0 where
  tenant user login_history refresh_token password_reset_token : Model
  role permission user_role user_permission_override user_factory_access : Model
  factory department warehouse location shift : Model
  customer supplier product_category product material : Model
  sales_quotation sales_quotation_item sales_order sales_order_item purchase_request : Model
  purchase_request_item purchase_order purchase_order_item goods_receipt goods_receipt_item : Model
  process_route process_route_stage production_order production_batch material_consumption : Model
  machine machine_log downtime stock stock_movement : Model
  dispatch dispatch_item inspection_template quality_inspection defect : Model
  maintenance_job maintenance_schedule employee attendance incentive : Model
  payroll_period payroll_entry cost_sheet notification file_asset : Model
  audit_log sync_event idempotency_key : Model

pub data Operation : Type 0 where
  find_first find_first_or_throw find_many find_unique find_unique_or_throw : Operation
  create create_many create_many_and_return update update_many : Operation
  upsert delete delete_many count aggregate group_by : Operation

-- `TENANT_SCOPED_MODELS.has`
unfoldable pub is_scoped_model : Model → Bool
is_scoped_model Model.tenant = false
is_scoped_model Model.login_history = false
is_scoped_model Model.refresh_token = false
is_scoped_model Model.password_reset_token = false
is_scoped_model Model.permission = false
is_scoped_model Model.user_role = false
is_scoped_model Model.user_permission_override = false
is_scoped_model Model.user_factory_access = false
is_scoped_model Model.location = false
is_scoped_model Model.sales_quotation_item = false
is_scoped_model Model.sales_order_item = false
is_scoped_model Model.purchase_request_item = false
is_scoped_model Model.purchase_order_item = false
is_scoped_model Model.goods_receipt_item = false
is_scoped_model Model.process_route_stage = false
is_scoped_model Model.material_consumption = false
is_scoped_model Model.dispatch_item = false
is_scoped_model Model.defect = false
is_scoped_model Model.payroll_entry = false
is_scoped_model _ = true

-- `WHERE_SCOPED_OPERATIONS.has`
unfoldable pub scopes_where : Operation → Bool
scopes_where Operation.create = false
scopes_where Operation.create_many = false
scopes_where Operation.create_many_and_return = false
scopes_where _ = true

abbrev pub Fields : Type 0
Fields = List (ℕ × ℕ)

-- `data`: left out, one row, or the array of a `createMany`.
pub data Data : Type 0 where
  no_data : Data
  one : Fields → Data
  many : List Fields → Data

pub record Args : Type 0 where
  pub where_ : Option Fields
  pub data_ : Data
  pub create_ : Option Fields
  pub update_ : Option Fields

-- The field `tenantId`.
abbrev pub tenant_id : ℕ
tenant_id = 0

-- `{ ...(fields ?? {}), tenantId }`
abbrev pub with_tenant : ℕ → Fields → Fields
with_tenant t fields = filter (λ f. not (f.0 == tenant_id)) fields ++ (tenant_id, t) ∷ []

abbrev pub or_empty : Option Fields → Fields
or_empty none = []
or_empty (some fields) = fields

abbrev pub one_of : Data → Fields
one_of no_data = []
one_of (one fields) = fields
one_of (many rows) = []

abbrev pub rows_of : Data → List Fields
rows_of no_data = []
rows_of (one fields) = []
rows_of (many rows) = rows

unfoldable pub inject_tenant_id : Operation → Args → ℕ → Args
inject_tenant_id Operation.upsert args t = record args {
  where_ = some (with_tenant t (or_empty args.where_));
  create_ = some (with_tenant t (or_empty args.create_));
  update_ = some (with_tenant t (or_empty args.update_));
}
inject_tenant_id Operation.create_many args t = record args {
  data_ = many (map (with_tenant t) (rows_of args.data_));
}
inject_tenant_id Operation.create args t = record args {
  data_ = one (with_tenant t (one_of args.data_));
}
inject_tenant_id operation args t =
    if scopes_where operation
    then record args { where_ = some (with_tenant t (or_empty args.where_)) }
    else args

-- `$allOperations`: the arguments of the query that is sent.
unfoldable pub all_operations : Model → Operation → Args → Option TenantRequestContext → Result Args
all_operations model operation args ctx =
    if is_scoped_model model
    then elim ctx [
      | none ↦ err forbidden
      | some c ↦ elim (truthy c.tenant_id) [
        | none ↦ err forbidden
        | some t ↦ ok (inject_tenant_id operation args t)
      ]
    ]
    else ok args
