-- ===== src/Rbac/Grants.antt =====
-- What the default permissions grant.
use abyte_tex.Base.{
  ℕ, Bool, true, false, List, [], ◌∷◌, ◌≡◌, ◌&&◌, ◌||◌, flat_map, arith, ◌==◌, if◌then◌else◌,
}
use abyte_tex.Rbac.{
  RoleCode, Action, Resource, Permission, same_role, same_action, resource_index, action_index,
  same_permission, default_role_permissions, permission_rows, includes_permission,
}

same_keys :
    (a b c a' b' c' : ℕ)
    → ((b == c) && (b' == c')) ≡ true
    → ((a == b) && (a' == b')) ≡ ((a == c) && (a' == c'))
same_keys a b c a' b' c' h = ground arith

-- A permission that is the same as another is the same as the other is.
pub same_permission_cong :
    (x p q : Permission) → same_permission p q ≡ true → same_permission x p ≡ same_permission x q
same_permission_cong x p q h =
    same_keys (resource_index x.0) (resource_index p.0) (resource_index q.0) (action_index x.1)
      (action_index p.1) (action_index q.1) h

-- Whether a role has a permission by default.
abbrev pub grants : RoleCode → Resource → Action → Bool
grants code r a = includes_permission (r, a) (permission_rows code)

abbrev pub is_owner : RoleCode → Bool
is_owner code = same_role code RoleCode.company_owner

abbrev pub is_admin : RoleCode → Bool
is_admin code = is_owner code || same_role code RoleCode.company_admin

-- What a viewer may do.
abbrev pub is_viewing : RoleCode → Action → Bool
is_viewing code a = same_role code RoleCode.viewer && same_action a Action.view

-- By default only the Company Owner and the Company Admin may do anything to users and to roles,
-- only the Company Owner anything to the tenant, but for a Viewer, who may view all three, and the
-- Company Owner may do everything to every resource.
pub administration :
    (code : RoleCode) (a : Action) (r : Resource)
    → (grants code Resource.user a ≡ is_admin code || is_viewing code a)
      × (grants code Resource.role a ≡ is_admin code || is_viewing code a)
      × (grants code Resource.tenant a ≡ is_owner code || is_viewing code a)
      × (grants RoleCode.company_owner r a ≡ true)
unfolding default_role_permissions flat_map
administration code a r = (grind arith, grind arith, grind arith, grind arith)

-- No default permission of a role is listed twice.
abbrev pub distinct : List Permission → Bool
distinct [] = true
distinct (p ∷ ps) = if includes_permission p ps then false else distinct ps

pub distinct-rows : (code : RoleCode) → distinct (permission_rows code) ≡ true
unfolding default_role_permissions flat_map
distinct-rows code = grind arith
