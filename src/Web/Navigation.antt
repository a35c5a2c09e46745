-- ===== src/Web/Navigation.antt =====
-- What the web client shows (apps/web/src/components): the sidebar (layout/nav-config.ts and
-- layout/sidebar.tsx), and what the layout of the pages (../app/(dashboard)/layout.tsx) renders of
-- the gate of a page (shared/permission-gate.tsx). Labels and icons are left out.
use abyte_tex.Base.{
  ℕ, ◌≡◌, refl, Bool, true, false, Option, none, some, List, [], ◌∷◌, ◌&&◌, not, filter, map,
  if◌then◌else◌, arith,
}
use abyte_tex.Http.{Result, ok, err}
use abyte_tex.Rbac
use abyte_tex.Rbac.{Permission, includes_permission}
use abyte_tex.Guards.{can_activate, platform_admin}
use abyte_tex.Auth.Strategy.{AuthenticatedUser}
use abyte_tex.Web.{
  AuthState, AuthStatus, initial, set_loading, set_access_token, set_session, clear, can,
  has_permission,
}

pub data Href : Type 0 where
  home sales purchase_orders dispatches production_orders machines quality maintenance : Href
  downtime costing inventory products materials customers suppliers employees : Href
  attendance payroll factories users roles company_settings tenants : Href

pub record NavItem : Type 0 where
  pub href : Href
  pub requires : Option Permission
  pub platform_only : Bool

abbrev pub view_of : Href → Rbac.Resource → NavItem
view_of href r = record {
  href = href;
  requires = some (r, Rbac.Action.view);
  platform_only = false;
}

-- The items of each section.
unfoldable pub nav_sections : List (List NavItem)
nav_sections =
    (record { href = home; requires = none; platform_only = false } ∷ [])
    ∷ (view_of sales Rbac.Resource.sales_order
        ∷ view_of purchase_orders Rbac.Resource.purchase_order
        ∷ view_of dispatches Rbac.Resource.dispatch
        ∷ [])
    ∷ (view_of production_orders Rbac.Resource.production_order
        ∷ view_of machines Rbac.Resource.machine
        ∷ view_of quality Rbac.Resource.quality_inspection
        ∷ view_of maintenance Rbac.Resource.maintenance_job
        ∷ view_of downtime Rbac.Resource.downtime
        ∷ view_of costing Rbac.Resource.cost_sheet
        ∷ [])
    ∷ (view_of inventory Rbac.Resource.stock ∷ [])
    ∷ (view_of products Rbac.Resource.product
        ∷ view_of materials Rbac.Resource.material
        ∷ view_of customers Rbac.Resource.customer
        ∷ view_of suppliers Rbac.Resource.supplier
        ∷ [])
    ∷ (view_of employees Rbac.Resource.employee
        ∷ view_of attendance Rbac.Resource.attendance
        ∷ view_of payroll Rbac.Resource.payroll
        ∷ [])
    ∷ (view_of factories Rbac.Resource.factory ∷ [])
    ∷ (view_of users Rbac.Resource.user
        ∷ view_of roles Rbac.Resource.role
        ∷ view_of company_settings Rbac.Resource.tenant
        ∷ [])
    ∷ (record { href = tenants; requires = none; platform_only = true } ∷ [])
    ∷ []

-- `s.session?.isPlatformAdmin ?? false`
abbrev pub is_platform_admin : AuthState → Bool
is_platform_admin store = elim store.session [ none ↦ false | some s ↦ s.is_platform_admin ]

unfoldable pub is_visible : AuthState → NavItem → Bool
is_visible store item =
    if item.platform_only
    then is_platform_admin store
    else if is_platform_admin store
    then false
    else elim item.requires [ none ↦ true | some key ↦ can store key ]

abbrev is_shown : List NavItem → Bool
is_shown [] = false
is_shown (item ∷ items) = true

-- A section without a visible item is not rendered.
unfoldable pub sidebar : AuthState → List (List NavItem)
sidebar store = filter is_shown (map (filter (is_visible store)) nav_sections)

unfoldable pub permission_gate : AuthState → Option Permission → Bool → Bool
permission_gate store key platform_only =
    if platform_only
    then is_platform_admin store
    else elim key [ none ↦ true | some k ↦ can store k ]

abbrev pub is_authenticated : AuthState → Bool
is_authenticated store = elim store.status [
  | AuthStatus.authenticated ↦ true
  | AuthStatus.idle ↦ false
  | AuthStatus.loading ↦ false
  | AuthStatus.unauthenticated ↦ false
]

-- Whether the layout of the pages renders the content of a gate.
unfoldable pub is_rendered : AuthState → Option Permission → Bool → Bool
is_rendered store key platform_only =
    if is_authenticated store then permission_gate store key platform_only else false

-- A guard lets a request pass.
abbrev pub passes : Result Bool → Bool
passes (ok b) = b
passes (err e) = false

-- What the guards say to a request of the user of the session: JwtAuthGuard rejects one without a
-- user; PermissionsGuard and, on a route of the platform, PlatformAdminGuard follow it.
abbrev pub guards_pass : AuthState → Option Permission → Bool → Bool
guards_pass store key platform_only = elim store.session [
  | none ↦ false
  | some u ↦
      passes (
        can_activate (record { is_public = false; required = if platform_only then none else key })
          (some u))
      && (if platform_only then passes (platform_admin (some u)) else true)
]

-- The stores that the operations of the store lead to.
pub data Reached : AuthState → Type 0 where
  initial_store : Reached initial
  loading_set : {store : AuthState} → Reached store → Reached (set_loading store)
  token_set :
      (token : ℕ) {store : AuthState} → Reached store → Reached (set_access_token token store)
  session_set :
      (token : ℕ) (session : AuthenticatedUser) {store : AuthState}
      → Reached store
      → Reached (set_session token session store)
  cleared : {store : AuthState} → Reached store → Reached (clear store)

has_session : AuthState → Bool
has_session store = elim store.session [ none ↦ false | some s ↦ true ]

-- Whoever is authenticated has a session.
Reached-has_session :
    {store : AuthState} → Reached store → is_authenticated store && not (has_session store) ≡ false
unfolding has_session
Reached-has_session Reached.initial_store = refl
Reached-has_session (Reached.loading_set r) = refl
Reached-has_session (Reached.token_set token r) = Reached-has_session r
Reached-has_session (Reached.session_set token session r) = refl
Reached-has_session (Reached.cleared r) = refl

-- The web client shows what the API lets pass, in every state that the operations of the store lead
-- to: a page behind a gate is rendered exactly when the user is authenticated and the guards pass
-- the user of the session on a route that asks for the same, and an item is in the sidebar that is
-- rendered exactly when they do and the user is no platform admin, but for the items of the
-- platform.
pub is_visible_lem :
    (store : AuthState) (item : NavItem) (key : Option Permission) (platform_only : Bool)
    → Reached store
    → (is_rendered store key platform_only
        ≡ is_authenticated store && guards_pass store key platform_only)
      × (is_authenticated store && is_visible store item ≡ (
          is_authenticated store
          && (guards_pass store item.requires item.platform_only
              && (if item.platform_only then true else not (is_platform_admin store)))))
unfolding is_rendered permission_gate is_visible can has_permission can_activate platform_admin
    has_session
is_visible_lem store item key platform_only r =
    let h = Reached-has_session r in (ground (arith, h), ground (arith, h))
