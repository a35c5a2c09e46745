-- ===== src/Auth/Strategy.antt =====
-- The authenticated user of a request (apps/api/src/auth/strategies/jwt.strategy.ts). The client's
-- `include` is written out as queries on the tables that it joins; the identity of the user beyond
-- its number is left out.
use abyte_tex.Base.{
  ℕ, Bool, true, false, Option, none, some, List, [], ◌∷◌, ◌++◌, ◌==◌, not, if◌then◌else◌, map,
  flat_map,
}
use abyte_tex.Http.{ok, unauthorized}
use abyte_tex.Rbac.{RoleCode, Permission, includes_permission}
use abyte_tex.Auth.Libraries.{TokenType, JwtAccessPayload}
use abyte_tex.Schema.{
  User, UserStatus, same_user_status, Role, UserPermissionOverride, PermissionEffect,
}
use abyte_tex.Database.{Prisma, Db, Action, ◌>>=◌, ◌>>◌, or_throw, reject_if, users}
use abyte_tex.Database.Raw

pub record AuthenticatedUser : Type 0 where
  pub user_id : ℕ
  pub tenant_id : Option ℕ
  pub is_platform_admin : Bool
  pub role_codes : List RoleCode
  pub allow : List Permission
  pub deny : List Permission
  pub factory_ids : List ℕ

abbrev pub is_access : TokenType → Bool
is_access TokenType.access = true
is_access TokenType.other = false

-- `Set.prototype.add`, for one element and for those of a list in turn.
abbrev pub add : Permission → List Permission → List Permission
add key set = if includes_permission key set then set else set ++ key ∷ []

unfoldable pub add_all : List Permission → List Permission → List Permission
add_all [] set = set
add_all (key ∷ keys) set = add_all keys (add key set)

-- One turn of the loop over `user.permissionOverrides`, which fills `allow` and `deny`.
unfoldable pub apply_override :
    PermissionEffect
    → Permission
    → List Permission × List Permission
    → List Permission × List Permission
apply_override PermissionEffect.allow key sets = (add key sets.0, sets.1)
apply_override PermissionEffect.deny key sets = (sets.0, add key sets.1)

unfoldable pub apply_overrides :
    List UserPermissionOverride
    → List Permission × List Permission
    → List Permission × List Permission
apply_overrides [] sets = sets
apply_overrides (o ∷ os) sets = apply_overrides os (apply_override o.effect o.permission sets)

module _ ⦃P : Prisma⦄ where
  -- `include: { roles: { include: { role: … } } }`
  unfoldable pub roles_of : ℕ → Db → List Role
  roles_of user_id db =
      flat_map (λ ur. P.find_many (λ r. r.id == ur.role_id) db.access.roles)
        (P.find_many (λ ur. ur.user_id == user_id) db.access.user_roles)

  unfoldable pub permissions_of : Db → Role → List Permission
  permissions_of db role =
      map (λ p. p.grants) (P.find_many (λ p. p.role_id == role.id) db.access.permissions)

  unfoldable pub authenticated_user : User → Db → AuthenticatedUser
  authenticated_user user db =
      let roles = roles_of user.id db in
      let sets =
        apply_overrides (P.find_many (λ o. o.user_id == user.id) db.access.permission_overrides)
          (add_all (flat_map (permissions_of db) roles) [], []) in
      record {
        user_id = user.id;
        tenant_id = user.tenant_id;
        is_platform_admin = user.is_platform_admin;
        role_codes = map (λ r. r.code) roles;
        allow = sets.0;
        deny = sets.1;
        factory_ids =
            map (λ f. f.factory_id)
              (P.find_many (λ f. f.user_id == user.id) db.access.factory_access);
      }

  abbrev pub is_active : User → Bool
  is_active user = elim user.deleted_at [
    | none ↦ same_user_status user.status UserStatus.active
    | some _ ↦ false
  ]

  unfoldable pub validate : JwtAccessPayload → Action AuthenticatedUser
  validate payload = do
    reject_if (not (is_access payload.token_type)) unauthorized
    found ← Raw.find_first users (λ u. u.id == payload.sub)
    user ← or_throw found unauthorized
    reject_if (not (is_active user)) unauthorized
    λ db. (ok (authenticated_user user db), db)
