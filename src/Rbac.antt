-- ===== src/Rbac.antt =====
-- The catalogue of roles, actions and resources, and what each role is granted by default
-- (apps/api/src/common/rbac.constants.ts). A key "resource:action" is a pair.
pub mod Grants
use abyte_tex.Base.{ℕ, Bool, List, [], ◌∷◌, ◌++◌, ◌&&◌, ◌==◌, not, any, filter, map, flat_map}

pub data RoleCode : Type 0 where
  super_admin support_admin company_owner company_admin factory_manager : RoleCode
  production_manager production_supervisor machine_operator quality_manager inventory_manager :
      RoleCode
  purchase_manager maintenance_manager hr_manager accountant sales_manager : RoleCode
  viewer : RoleCode

pub data Action : Type 0 where
  view create update delete approve reject export print : Action

pub data Resource : Type 0 where
  tenant user role factory department warehouse shift : Resource
  customer supplier product material sales_order purchase_order production_order : Resource
  production_batch machine downtime stock dispatch quality_inspection maintenance_job : Resource
  employee attendance payroll cost_sheet report audit_log : Resource

abbrev pub Permission : Type 0
Permission = Resource × Action

-- `===` on the strings of the three enumerations: their places in the catalogue.
abbrev pub role_index : RoleCode → ℕ
role_index super_admin = 0
role_index support_admin = 1
role_index company_owner = 2
role_index company_admin = 3
role_index factory_manager = 4
role_index production_manager = 5
role_index production_supervisor = 6
role_index machine_operator = 7
role_index quality_manager = 8
role_index inventory_manager = 9
role_index purchase_manager = 10
role_index maintenance_manager = 11
role_index hr_manager = 12
role_index accountant = 13
role_index sales_manager = 14
role_index viewer = 15

abbrev pub action_index : Action → ℕ
action_index view = 0
action_index create = 1
action_index update = 2
action_index delete = 3
action_index approve = 4
action_index reject = 5
action_index export = 6
action_index print = 7

abbrev pub resource_index : Resource → ℕ
resource_index tenant = 0
resource_index user = 1
resource_index role = 2
resource_index factory = 3
resource_index department = 4
resource_index warehouse = 5
resource_index shift = 6
resource_index customer = 7
resource_index supplier = 8
resource_index product = 9
resource_index material = 10
resource_index sales_order = 11
resource_index purchase_order = 12
resource_index production_order = 13
resource_index production_batch = 14
resource_index machine = 15
resource_index downtime = 16
resource_index stock = 17
resource_index dispatch = 18
resource_index quality_inspection = 19
resource_index maintenance_job = 20
resource_index employee = 21
resource_index attendance = 22
resource_index payroll = 23
resource_index cost_sheet = 24
resource_index report = 25
resource_index audit_log = 26

abbrev pub same_role : RoleCode → RoleCode → Bool
same_role a b = role_index a == role_index b

abbrev pub same_action : Action → Action → Bool
same_action a b = action_index a == action_index b

abbrev pub same_resource : Resource → Resource → Bool
same_resource a b = resource_index a == resource_index b

abbrev pub same_permission : Permission → Permission → Bool
same_permission p q = same_resource p.0 q.0 && same_action p.1 q.1

unfoldable pub tenant_role_codes : List RoleCode
tenant_role_codes =
    company_owner ∷ company_admin ∷ factory_manager ∷ production_manager ∷ production_supervisor
    ∷ machine_operator ∷ quality_manager ∷ inventory_manager ∷ purchase_manager
    ∷ maintenance_manager ∷ hr_manager ∷ accountant ∷ sales_manager ∷ viewer ∷ []

abbrev pub all_actions : List Action
all_actions = view ∷ create ∷ update ∷ delete ∷ approve ∷ reject ∷ export ∷ print ∷ []

abbrev pub resource_values : List Resource
resource_values =
    tenant ∷ user ∷ role ∷ factory ∷ department ∷ warehouse ∷ shift ∷ customer ∷ supplier ∷ product
    ∷ material ∷ sales_order ∷ purchase_order ∷ production_order ∷ production_batch ∷ machine
    ∷ downtime ∷ stock ∷ dispatch ∷ quality_inspection ∷ maintenance_job ∷ employee ∷ attendance
    ∷ payroll ∷ cost_sheet ∷ report ∷ audit_log ∷ []

abbrev pub view_only : List Action
view_only = view ∷ export ∷ print ∷ []

abbrev pub standard : List Action
standard = view ∷ create ∷ update ∷ export ∷ print ∷ []

abbrev pub standard_with_delete : List Action
standard_with_delete = standard ++ delete ∷ []

abbrev pub approval : List Action
approval = standard ++ approve ∷ reject ∷ []

-- The entries of `DEFAULT_ROLE_PERMISSIONS[code]`.
unfoldable pub default_role_permissions : RoleCode → List (Resource × List Action)
default_role_permissions super_admin = []
default_role_permissions support_admin = []
default_role_permissions company_owner = map (λ r. (r, all_actions)) resource_values
default_role_permissions company_admin =
    map (λ r. (r, all_actions)) (filter (λ r. not (same_resource r tenant)) resource_values)
default_role_permissions factory_manager =
    (factory, standard)
    ∷ (department, standard_with_delete)
    ∷ (warehouse, standard_with_delete)
    ∷ (shift, standard_with_delete)
    ∷ (sales_order, approval)
    ∷ (purchase_order, approval)
    ∷ (production_order, approval)
    ∷ (production_batch, standard)
    ∷ (machine, standard_with_delete)
    ∷ (downtime, standard)
    ∷ (stock, standard)
    ∷ (dispatch, approval)
    ∷ (quality_inspection, approval)
    ∷ (maintenance_job, approval)
    ∷ (employee, standard_with_delete)
    ∷ (attendance, standard)
    ∷ (payroll, approval)
    ∷ (cost_sheet, view_only)
    ∷ (report, view_only)
    ∷ []
default_role_permissions production_manager =
    (production_order, standard_with_delete)
    ∷ (production_batch, standard_with_delete)
    ∷ (machine, standard)
    ∷ (downtime, standard)
    ∷ (material, view_only)
    ∷ (stock, view_only)
    ∷ (report, view_only)
    ∷ []
default_role_permissions production_supervisor =
    (production_order, view_only)
    ∷ (production_batch, standard)
    ∷ (machine, view_only)
    ∷ (downtime, standard)
    ∷ []
default_role_permissions machine_operator =
    (production_batch, view ∷ create ∷ update ∷ [])
    ∷ (machine, view ∷ [])
    ∷ (downtime, view ∷ create ∷ [])
    ∷ []
default_role_permissions quality_manager =
    (quality_inspection, standard_with_delete)
    ∷ (production_batch, view_only)
    ∷ (report, view_only)
    ∷ []
default_role_permissions inventory_manager =
    (stock, standard_with_delete)
    ∷ (warehouse, standard)
    ∷ (product, standard)
    ∷ (material, standard)
    ∷ (dispatch, standard)
    ∷ (report, view_only)
    ∷ []
default_role_permissions purchase_manager =
    (purchase_order, standard_with_delete)
    ∷ (supplier, standard_with_delete)
    ∷ (material, standard)
    ∷ (report, view_only)
    ∷ []
default_role_permissions maintenance_manager =
    (maintenance_job, standard_with_delete)
    ∷ (machine, standard)
    ∷ (downtime, view_only)
    ∷ (report, view_only)
    ∷ []
default_role_permissions hr_manager =
    (employee, standard_with_delete)
    ∷ (shift, standard)
    ∷ (attendance, standard_with_delete)
    ∷ (payroll, approval)
    ∷ (report, view_only)
    ∷ []
default_role_permissions accountant =
    (cost_sheet, standard)
    ∷ (payroll, standard)
    ∷ (sales_order, view_only)
    ∷ (purchase_order, view_only)
    ∷ (report, view_only)
    ∷ []
default_role_permissions sales_manager =
    (sales_order, standard_with_delete)
    ∷ (customer, standard_with_delete)
    ∷ (dispatch, standard)
    ∷ (product, view_only)
    ∷ (report, view_only)
    ∷ []
default_role_permissions viewer = map (λ r. (r, view ∷ [])) resource_values

-- `Object.entries(permissions).flatMap(([resource, actions]) => actions.map(…))`
abbrev pub permission_rows : RoleCode → List Permission
permission_rows code = flat_map (λ e. map (λ a. (e.0, a)) e.1) (default_role_permissions code)

abbrev pub includes_permission : Permission → List Permission → Bool
includes_permission p = any (λ q. same_permission q p)
