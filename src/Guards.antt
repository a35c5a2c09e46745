-- ===== src/Guards.antt =====
-- The global guards that a request passes before its handler: JwtAuthGuard, then PermissionsGuard,
-- and PlatformAdminGuard on the routes of the platform (apps/api/src/common/guards). What the
-- decorators of a route say is an argument.
pub mod Permissions
use abyte_tex.Base.{ℕ, Bool, true, false, Option, none, some, ◌&&◌, not, if◌then◌else◌}
use abyte_tex.Http.{Result, ok, err, forbidden, unauthorized}
use abyte_tex.Rbac.{Permission, includes_permission}
use abyte_tex.Auth.Libraries.{Jwt}
use abyte_tex.Auth.Strategy.{AuthenticatedUser, validate}
use abyte_tex.Database.{Prisma, Db, Action, ◌>>=◌, ◌>>◌, pure, throw, check, or_throw}

-- `@Public()` and `@RequirePermission(…)` of a route.
pub record Route : Type 0 where
  pub is_public : Bool
  pub required : Option Permission

-- `PermissionsGuard.canActivate`
unfoldable pub can_activate : Route → Option AuthenticatedUser → Result Bool
can_activate route user = if route.is_public then ok true else elim route.required [
  | none ↦ ok true
  | some key ↦ elim user [
    | none ↦ ok false
    | some u ↦
        if not (includes_permission key u.deny) && includes_permission key u.allow
        then ok true
        else err forbidden
  ]
]

-- `PlatformAdminGuard.canActivate`
unfoldable pub platform_admin : Option AuthenticatedUser → Result Bool
platform_admin none = err forbidden
platform_admin (some u) = if u.is_platform_admin then ok true else err forbidden

module _ ⦃P : Prisma⦄ ⦃J : Jwt⦄ where
  -- `JwtAuthGuard.canActivate`, which leaves the user on the request.
  unfoldable pub authenticate : Route → ℕ → Action (Option AuthenticatedUser)
  authenticate route token = if route.is_public then pure none else do
    payload ← or_throw (J.verify token) unauthorized
    user ← validate payload
    pure (some user)

  -- The guards in their order; a request on which a guard answers `false` is a 403.
  unfoldable pub authorize : Route → ℕ → Action (Option AuthenticatedUser)
  authorize route token = do
    user ← authenticate route token
    passed ← check (can_activate route user)
    if passed then pure user else throw forbidden
