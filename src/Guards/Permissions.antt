-- ===== src/Guards/Permissions.antt =====
-- Who passes the guards of a route that wants a permission.
use abyte_tex.Base.{
  ℕ, ◌≡◌, refl, ◌∙◌, sym, ap, Bool, true, false, some, List, [], ◌∷◌, ◌==◌, ◌&&◌, ◌||◌, not,
  if◌then◌else◌, any, any_append, any-flat_map, any-map, any_cong, flat_map, arith, Bool-cases, inl,
  inr,
}
use abyte_tex.Http.{ok, err, forbidden, unauthorized}
use abyte_tex.Rbac.Grants.{same_permission_cong}
use abyte_tex.Rbac.{Permission, same_permission, includes_permission}
use abyte_tex.Schema.{User, UserPermissionOverride, PermissionEffect}
use abyte_tex.Auth.Strategy.{
  is_access, add, add_all, apply_override, apply_overrides, roles_of, permissions_of,
  authenticated_user, is_active, validate,
}
use abyte_tex.Auth.Libraries.{Jwt, JwtAccessPayload}
use abyte_tex.Guards.{can_activate, authenticate, authorize}
use abyte_tex.Database.{Prisma, Db}

or_comm : (a b : Bool) → (a || (if b then true else false)) ≡ (b || a)
or_comm a b = ground arith

includes_same :
    (key k : Permission) (set : List Permission)
    → same_permission key k ≡ true
    → includes_permission key set ≡ includes_permission k set
includes_same key k set h =
    any_cong (λ x. same_permission x key) (λ x. same_permission x k) set
      (λ x. same_permission_cong x key k h)

-- The set that an element was added to.
includes-add :
    (k key : Permission) (set : List Permission)
    → includes_permission k (add key set) ≡ same_permission key k || includes_permission k set
includes-add k key set = elim (Bool-cases (includes_permission key set)) [
  | inl e ↦ elim (Bool-cases (same_permission key k)) [
    | inl s ↦ rw e (rw s (sym (includes_same key k set s) ∙ e))
    | inr s ↦ rw e (rw s)
  ]
  | inr e ↦ rw e (
      any_append (λ q. same_permission q k) set (key ∷ [])
      ∙ or_comm (includes_permission k set) (same_permission key k))
]

includes-add_all :
    (k : Permission) (keys set : List Permission)
    → includes_permission k (add_all keys set)
      ≡ includes_permission k keys || includes_permission k set
unfolding add_all
includes-add_all k [] set = refl
includes-add_all k (key ∷ keys) set =
    ground (arith, includes-add_all k keys (add key set), includes-add k key set)

abbrev pub is_allow : PermissionEffect → Bool
is_allow PermissionEffect.allow = true
is_allow PermissionEffect.deny = false

or_both : {a a' b c d : Bool} → a ≡ a' → b ≡ c || false → c ≡ d → (a || b) ≡ (a' || d)
or_both p q r = ground arith

or_false : {a a' : Bool} → a ≡ a' → (a || false) ≡ a'
or_false p = ground arith

or_step :
    (r y : Bool) {x : Bool} (c : Bool) → x ≡ c || y → (r || x) ≡ ((if c then true else r) || y)
or_step r y c h = ground arith

allow-apply_override :
    (k key : Permission) (effect : PermissionEffect) (sets : List Permission × List Permission)
    → includes_permission k (apply_override effect key sets).0
      ≡ (is_allow effect && same_permission key k) || includes_permission k sets.0
unfolding apply_override
allow-apply_override k key PermissionEffect.allow sets = includes-add k key sets.0
allow-apply_override k key PermissionEffect.deny sets = refl

allow-apply_overrides :
    (k : Permission) (os : List UserPermissionOverride) (sets : List Permission × List Permission)
    → includes_permission k (apply_overrides os sets).0
      ≡ any (λ o. is_allow o.effect && same_permission o.permission k) os
        || includes_permission k sets.0
unfolding apply_overrides
allow-apply_overrides k [] sets = refl
allow-apply_overrides k (o ∷ os) sets =
    allow-apply_overrides k os (apply_override o.effect o.permission sets)
    ∙ or_step _ _ (is_allow o.effect && same_permission o.permission k)
        (allow-apply_override k o.permission o.effect sets)

deny-apply_override :
    (k key : Permission) (effect : PermissionEffect) (sets : List Permission × List Permission)
    → includes_permission k (apply_override effect key sets).1
      ≡ (not (is_allow effect) && same_permission key k) || includes_permission k sets.1
unfolding apply_override
deny-apply_override k key PermissionEffect.allow sets = refl
deny-apply_override k key PermissionEffect.deny sets = includes-add k key sets.1

deny-apply_overrides :
    (k : Permission) (os : List UserPermissionOverride) (sets : List Permission × List Permission)
    → includes_permission k (apply_overrides os sets).1
      ≡ any (λ o. not (is_allow o.effect) && same_permission o.permission k) os
        || includes_permission k sets.1
unfolding apply_overrides
deny-apply_overrides k [] sets = refl
deny-apply_overrides k (o ∷ os) sets =
    deny-apply_overrides k os (apply_override o.effect o.permission sets)
    ∙ or_step _ _ (not (is_allow o.effect) && same_permission o.permission k)
        (deny-apply_override k o.permission o.effect sets)

module _ ⦃P : Prisma⦄ (db : Db) (u : ℕ) (k : Permission) where
  -- Some role of the user has a row for the key.
  abbrev pub role_grants : Bool
  role_grants =
      any
        (λ ur.
          (ur.user_id == u)
          && any
              (λ r.
                (r.id == ur.role_id)
                && any (λ p. (p.role_id == r.id) && same_permission p.grants k)
                    db.access.permissions)
              db.access.roles)
        db.access.user_roles

  -- Some override of the user allows (denies) the key.
  abbrev pub override_allows : Bool
  override_allows =
      any (λ o. (o.user_id == u) && (is_allow o.effect && same_permission o.permission k))
        db.access.permission_overrides

  abbrev pub override_denies : Bool
  override_denies =
      any (λ o. (o.user_id == u) && (not (is_allow o.effect) && same_permission o.permission k))
        db.access.permission_overrides

  includes-roles :
      includes_permission k (flat_map (permissions_of db) (roles_of u db)) ≡ role_grants
  unfolding permissions_of roles_of
  includes-roles =
      any-flat_map (λ q. same_permission q k) (permissions_of db) (roles_of u db)
      ∙ any-flat_map (λ r. includes_permission k (permissions_of db r))
          (λ ur. P.find_many (λ r. r.id == ur.role_id) db.access.roles)
          (P.find_many (λ ur. ur.user_id == u) db.access.user_roles)
      ∙ P.find_many-any (λ ur. ur.user_id == u)
          (λ ur.
            any (λ r. includes_permission k (permissions_of db r))
              (P.find_many (λ r. r.id == ur.role_id) db.access.roles))
          db.access.user_roles
      ∙ any_cong _ _ db.access.user_roles (λ ur.
        ap (λ b. (ur.user_id == u) && b)
          (P.find_many-any (λ r. r.id == ur.role_id)
              (λ r. includes_permission k (permissions_of db r)) db.access.roles
            ∙ any_cong _ _ db.access.roles (λ r.
              ap (λ b. (r.id == ur.role_id) && b)
                (any-map (λ q. same_permission q k) (λ p. p.grants)
                    (P.find_many (λ p. p.role_id == r.id) db.access.permissions)
                  ∙ P.find_many-any (λ p. p.role_id == r.id) (λ p. same_permission p.grants k)
                      db.access.permissions))))

module _ ⦃P : Prisma⦄ (db : Db) (user : User) (k : Permission) where
  allow_lem :
      includes_permission k (authenticated_user user db).allow
      ≡ (override_allows db user.id k || role_grants db user.id k)
  unfolding authenticated_user
  allow_lem =
      allow-apply_overrides k
        (P.find_many (λ o. o.user_id == user.id) db.access.permission_overrides)
        (add_all (flat_map (permissions_of db) (roles_of user.id db)) [], [])
      ∙ or_both
          (P.find_many-any (λ o. o.user_id == user.id)
            (λ o. is_allow o.effect && same_permission o.permission k)
            db.access.permission_overrides)
          (includes-add_all k (flat_map (permissions_of db) (roles_of user.id db)) [])
          (includes-roles db user.id k)

  deny_lem : includes_permission k (authenticated_user user db).deny ≡ override_denies db user.id k
  unfolding authenticated_user
  deny_lem =
      deny-apply_overrides k
        (P.find_many (λ o. o.user_id == user.id) db.access.permission_overrides)
        (add_all (flat_map (permissions_of db) (roles_of user.id db)) [], [])
      ∙ or_false (
          P.find_many-any (λ o. o.user_id == user.id)
            (λ o. not (is_allow o.effect) && same_permission o.permission k)
            db.access.permission_overrides)

module _ ⦃P : Prisma⦄ ⦃J : Jwt⦄ where
  -- The request of a token that verifies and whose user is found, on a route that is not public and
  -- wants a permission, passes the guards exactly when the token is an access token, the user is
  -- ACTIVE and not deleted, some role of the user or some ALLOW override grants the permission, and
  -- no DENY override takes it away. The guards then leave the user as the database now describes
  -- it; in every other case the request is a 401 (token or account) or a 403 (permission). The
  -- database is only read.
  pub authorize_lem :
      (token : ℕ) (payload : JwtAccessPayload) (key : Permission) (db : Db) (user : User)
      → J.verify token ≡ some payload
      → P.find_first (λ u. u.id == payload.sub) db.access.users ≡ some user
      → authorize (record { is_public = false; required = some key }) token db ≡ (
        if is_access payload.token_type && is_active user
            then (if (override_allows db user.id key || role_grants db user.id key)
                  && not (override_denies db user.id key)
                then ok (some (authenticated_user user db))
                else err forbidden)
            else err unauthorized,
        db,
      )
  unfolding authorize authenticate can_activate validate
  authorize_lem token payload key db user verified found =
      ground (arith, allow_lem db user key, deny_lem db user key)
