-- ===== src/Tenants/Provisioning.antt =====
-- What the owner of a new tenant may do.
use abyte_tex.Base.{
  ℕ, ◌+◌, ◌≡◌, refl, sym, ◌∙◌, subst, Bool, true, false, some, List, [], ◌∷◌, ◌==◌, ◌&&◌, any,
  any-map, any_cong, arith, Bool-cases, inl, inr, ==_refl, ==→≡,
}
use abyte_tex.Http.{Error, ok, conflict}
use abyte_tex.Context.{TenantRequestContext}
use abyte_tex.Rbac.{RoleCode, Permission, permission_rows, same_permission, tenant_role_codes}
use abyte_tex.Rbac.Grants.{administration}
use abyte_tex.Schema.{Role, RolePermission, UserRole, Tenant, User, TenantStatus}
use abyte_tex.Auth.Libraries.{Crypto}
use abyte_tex.Roles.{seed_tenant_roles}
use abyte_tex.Tenants.{
  CreateTenantDto, role_id_of, finish, set_up, store_tenant, appoint, create_owner, create_link,
  provision, create_tenant,
}
use abyte_tex.Guards.Permissions.{role_grants}
use abyte_tex.Database.{Prisma, Db, ◌>>=◌, pure, reject_if, Action, tenants, users, log, ◌>>◌}
use abyte_tex.Database.Laws.{Ensures, Ensures-bind, Ensures-transaction}
use abyte_tex.Users.{is_some}
use abyte_tex.Schema
use abyte_tex.Database.Raw
use abyte_tex.Tenants.Seeding.{any-create, HasOwnerRole, seed_owner}

module _ ⦃P : Prisma⦄ where
  any-weaken :
      {A : Type 0} (p q : A → Bool) (l : List A)
      → ((x : A) → p x ≡ true → q x ≡ true)
      → any p l ≡ true
      → any q l ≡ true
  any-weaken p q [] k h = h
  any-weaken p q (x ∷ l) k h = elim (Bool-cases (p x)) [
    | inl e ↦ ground (arith, k x e)
    | inr e ↦ ground (arith, any-weaken p q l k (ground arith))
  ]

  has_row :
      (d : Db) (id : ℕ) (key : Permission)
      → HasOwnerRole id d
      → any (λ p. (p.role_id == id) && same_permission p.grants key) d.access.permissions ≡ true
  has_row d id key has =
      let (_, _, _, every) = administration RoleCode.company_owner key.1 key.0 in
      has.1 (λ p. (p.role_id == id) && same_permission p.grants key)
        (any-map (λ (p : RolePermission). (p.role_id == id) && same_permission p.grants key)
            (λ p. record { role_id = id; grants = p }) (permission_rows RoleCode.company_owner)
          ∙ any_cong _ _ (permission_rows RoleCode.company_owner) (λ p. rw (==_refl id) refl)
          ∙ every)

  abbrev grants_key : Db → Permission → ℕ → Bool
  grants_key d key id =
      any (λ p. (p.role_id == id) && same_permission p.grants key) d.access.permissions

  abbrev role_has : Db → Permission → ℕ → Bool
  role_has d key id = any (λ r. (r.id == id) && grants_key d key r.id) d.access.roles

  has_role_row : (d : Db) (id : ℕ) (key : Permission) → HasOwnerRole id d → role_has d key id ≡ true
  has_role_row d id key has =
      any-weaken (λ (r : Role). r.id == id) (λ r. (r.id == id) && grants_key d key r.id)
        d.access.roles
        (λ r f.
          let e = ==→≡ r.id id f in
          rw (f, subst (λ x. grants_key d key x ≡ true) (sym e) (has_row d id key has)))
        has.0

  -- Every key is granted to a user who has the role.
  granted_lem :
      (d : Db) (u id : ℕ) (key : Permission)
      → HasOwnerRole id d
      → any (λ ur. (ur.user_id == u) && (ur.role_id == id)) d.access.user_roles ≡ true
      → role_grants d u key ≡ true
  granted_lem d u id key has =
      any-weaken (λ (ur : UserRole). (ur.user_id == u) && (ur.role_id == id))
        (λ ur. (ur.user_id == u) && role_has d key ur.role_id) d.access.user_roles
        (λ ur e.
          let role = ==→≡ ur.role_id id (ground arith) in
          let has = subst (λ x. role_has d key x ≡ true) (sym role) (has_role_row d id key has) in
          ground arith)

  newly_granted :
      (d : Db) (u id : ℕ) (key : Permission) (l : List UserRole)
      → HasOwnerRole id d
      → d.access.user_roles ≡ P.create (record { user_id = u; role_id = id }) l
      → role_grants d u key ≡ true
  newly_granted d u id key l has e = granted_lem d u id key has (
      rw e (
        any-create (λ (ur : UserRole). (ur.user_id == u) && (ur.role_id == id))
          (record { user_id = u; role_id = id }) l
        ∙ ground (arith, ==_refl u, ==_refl id)))

  -- The owner may do everything that a key names.
  abbrev MayAll : ℕ → Db → Type 0
  MayAll u d = (key : Permission) → role_grants d u key ≡ true

  create_owner-MayAll :
      ⦃C : Crypto⦄ (dto : CreateTenantDto) (tenant_id id : ℕ) (db : Db)
      → HasOwnerRole id db
      → Ensures (λ owner d. MayAll owner.id d) (create_owner dto tenant_id id db)
  unfolding create_owner
  create_owner-MayAll dto tenant_id id db h key =
      newly_granted (create_owner dto tenant_id id db).1 (P.cuid (db.generated + 1 + 1)) id key
        db.access.user_roles h refl

  appoint-MayAll :
      ⦃C : Crypto⦄ (dto : CreateTenantDto) (tenant_id : ℕ) (s : List (RoleCode × ℕ)) (id : ℕ)
      (db : Db)
      → role_id_of RoleCode.company_owner s ≡ some id
      → HasOwnerRole id db
      → Ensures (λ owner d. MayAll owner.id d) (appoint dto tenant_id s db)
  unfolding appoint
  appoint-MayAll dto tenant_id s id db e h = rw e (create_owner-MayAll dto tenant_id id db h)

  abbrev OwnerMayAll : Tenant × User × ℕ → Db → Type 0
  OwnerMayAll c d = MayAll c.1.id d

  set_up-MayAll :
      ⦃C : Crypto⦄ (now : ℕ) (dto : CreateTenantDto) (tenant : Tenant) (db : Db)
      → Ensures OwnerMayAll (set_up now dto tenant db)
  unfolding set_up seed_tenant_roles tenant_role_codes finish create_link
  set_up-MayAll now dto tenant db =
      Ensures-bind OwnerMayAll (seed_tenant_roles tenant.id)
        (λ s. appoint dto tenant.id s >>= finish now tenant) db (seed_owner tenant.id _ db)
        (λ s d h.
          Ensures-bind OwnerMayAll (appoint dto tenant.id s) (finish now tenant) d
            (appoint-MayAll dto tenant.id s _ d h.0 h.1) (λ owner d' all. all))

  provision-MayAll :
      ⦃C : Crypto⦄ (now : ℕ) (dto : CreateTenantDto) (db : Db)
      → Ensures OwnerMayAll (provision now dto db)
  unfolding provision
  provision-MayAll now dto db =
      Ensures-transaction OwnerMayAll
        (Raw.create tenants (λ id. record {
          id = id;
          name = dto.company_name;
          slug = dto.slug;
          status = TenantStatus.trial;
        })
          >>= set_up now dto)
        db (set_up-MayAll now dto _ _)

  Ensures-reject_if :
      {B : Type 0} (R : B → Db → Type 0) (c : Bool) (e : Error) (m : Action B) (db : Db)
      → Ensures R (m db)
      → Ensures R ((reject_if c e >> m) db)
  Ensures-reject_if R true e m db h = tt
  Ensures-reject_if R false e m db h = h

  module _ ⦃C : Crypto⦄ (ctx : TenantRequestContext) (dto : CreateTenantDto) (db : Db) where
    store_tenant-MayAll : Ensures OwnerMayAll (store_tenant ctx dto db)
    unfolding store_tenant
    store_tenant-MayAll =
        Ensures-bind OwnerMayAll (provision ctx.now dto)
          (λ created.
            log ctx Schema.AuditAction.create Schema.EntityType.tenant created.0.id >> pure created)
          db (provision-MayAll ctx.now dto db) (λ created d all. all)

    create_tenant-MayAll : Ensures OwnerMayAll (create_tenant ctx dto db)
    unfolding create_tenant
    create_tenant-MayAll =
        Ensures-reject_if OwnerMayAll
          (is_some (P.find_first (λ t. t.slug == dto.slug) db.access.tenants)) conflict
          (Raw.find_first users (λ u. u.email == dto.owner_email) >>= λ found.
            reject_if (is_some found) conflict >> store_tenant ctx dto)
          db
          (Ensures-reject_if OwnerMayAll
            (is_some (P.find_first (λ u. u.email == dto.owner_email) db.access.users)) conflict
            (store_tenant ctx dto) db store_tenant-MayAll)

    -- If the creation of a tenant returns, the rows of the roles grant its owner every permission of
    -- the catalogue.
    pub create_tenant-role_grants :
        (created : Tenant × User × ℕ) (db' : Db) (key : Permission)
        → create_tenant ctx dto db ≡ (ok created, db')
        → role_grants db' created.1.id key ≡ true
    create_tenant-role_grants created db' key ran =
        subst (Ensures OwnerMayAll) ran create_tenant-MayAll key
