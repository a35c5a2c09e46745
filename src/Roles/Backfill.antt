-- ===== src/Roles/Backfill.antt =====
-- What the backfill of the permissions does to the table of permissions.
use abyte_tex.Base.{
  ◌≡◌, refl, ◌∙◌, sym, ap, Bool, true, false, List, [], ◌∷◌, ◌==◌, ◌&&◌, ◌||◌, if◌then◌else◌, any,
  any_append, any-flat_map, any-map, any_cong, any-mem, arith, Bool-cases, inl, inr, Memᴰ, ==→≡,
}
use abyte_tex.Http.{ok}
use abyte_tex.Rbac.{
  includes_permission, permission_rows, same_permission, same_role, tenant_role_codes,
}
use abyte_tex.Rbac.Grants.{same_permission_cong}
use abyte_tex.Schema.{Role, RolePermission}
use abyte_tex.Database.{Prisma, Db, for_each}
use abyte_tex.Roles.{
  same_row, rows_for, add_row, create_many_skipping, is_backfilled, backfill_rows, store_rows,
  on_module_init,
}

and_eq : {a a' b b' : Bool} → a ≡ a' → b ≡ b' → (a && b) ≡ (a' && b')
and_eq p q = ground arith

and_true : {a b : Bool} → (a && b) ≡ true → (a ≡ true) × (b ≡ true)
and_true h = (ground arith, ground arith)

same_row_cong : (y a b : RolePermission) → same_row a b ≡ true → same_row y a ≡ same_row y b
same_row_cong y a b h =
    let (i, p) = and_true h in
    and_eq (ap (λ n. y.role_id == n) (==→≡ a.role_id b.role_id i))
      (same_permission_cong y.grants a.grants b.grants p)

any_and : {A : Type 0} (c : Bool) (f : A → Bool) (l : List A) → any (λ x. c && f x) l ≡ c && any f l
any_and true f [] = refl
any_and false f [] = refl
any_and c f (x ∷ l) = ground (arith, any_and c f l)

or_swap : (a b : Bool) → (a || (if b then true else false)) ≡ (b || a)
or_swap a b = ground arith

module _ ⦃P : Prisma⦄ where
  abbrev pub has : RolePermission → List RolePermission → Bool
  has x = any (λ r. same_row r x)

  insert_missing : List RolePermission → List RolePermission → List RolePermission
  insert_missing [] l = l
  insert_missing (row ∷ rows) l = insert_missing rows (if has row l then l else P.create row l)

  has-insert :
      (x row : RolePermission) (l : List RolePermission)
      → has x (if has row l then l else P.create row l) ≡ same_row row x || has x l
  has-insert x row l = elim (Bool-cases (has row l)) [
    | inl e ↦ elim (Bool-cases (same_row row x)) [
      | inl s ↦ rw e (
          rw s (
            any_cong (λ r. same_row r x) (λ r. same_row r row) l
              (λ y. sym (same_row_cong y row x s))
            ∙ e))
      | inr s ↦ rw e (rw s)
    ]
    | inr e ↦ rw e (
        rw P.create_lem
          (any_append (λ r. same_row r x) l (row ∷ []) ∙ or_swap (has x l) (same_row row x)))
  ]

  has-insert_missing :
      (x : RolePermission) (rows l : List RolePermission)
      → has x (insert_missing rows l) ≡ has x rows || has x l
  unfolding insert_missing
  has-insert_missing x [] l = refl
  has-insert_missing x (row ∷ rows) l = ground (
    arith,
    has-insert_missing x rows (if has row l then l else P.create row l),
    has-insert x row l,
  )

  abbrev with_rows : List RolePermission → Db → Db
  with_rows l db = record db { access = record db.access { permissions = l } }

  create_many_skipping_lem :
      (rows : List RolePermission) (db : Db)
      → create_many_skipping rows db
        ≡ (ok tt, with_rows (insert_missing rows db.access.permissions) db)
  unfolding create_many_skipping for_each insert_missing
  create_many_skipping_lem [] db = refl
  create_many_skipping_lem (row ∷ rows) db = elim (Bool-cases (has row db.access.permissions)) [
    | inl e ↦ rw e (create_many_skipping_lem rows db)
    | inr e ↦ rw e (create_many_skipping_lem rows (add_row row db))
  ]

  -- The defaults of a role.
  abbrev pub by_default : RolePermission → Role → Bool
  by_default x r = (r.id == x.role_id) && includes_permission x.grants (permission_rows r.code)

  has-backfill_rows :
      (x : RolePermission) (l : List Role) → has x (backfill_rows l) ≡ any (by_default x) l
  unfolding backfill_rows
  has-backfill_rows x l =
      any-flat_map (λ r. same_row r x) (λ r. rows_for r.id (permission_rows r.code)) l
      ∙ any_cong _ _ l (λ r.
        any-map (λ y. same_row y x) (λ p. record { role_id = r.id; grants = p })
          (permission_rows r.code)
        ∙ any_and (r.id == x.role_id) (λ p. same_permission p x.grants) (permission_rows r.code))

  store_rows_lem :
      (rows : List RolePermission) (db : Db)
      → store_rows rows db ≡ (ok tt, with_rows (insert_missing rows db.access.permissions) db)
  unfolding store_rows insert_missing
  store_rows_lem [] db = refl
  store_rows_lem (row ∷ rows) db = create_many_skipping_lem (row ∷ rows) db

  -- The rows that the backfill wants.
  abbrev wanted : Db → List RolePermission
  wanted db = backfill_rows (P.find_many is_backfilled db.access.roles)

  on_module_init_step :
      (db : Db)
      → on_module_init db ≡ (ok tt, with_rows (insert_missing (wanted db) db.access.permissions) db)
  unfolding on_module_init
  on_module_init_step db = store_rows_lem (wanted db) db

  -- The backfill returns. Afterwards a role has a permission exactly if it had it before, or the
  -- role is a system role with the code of a tenant role and has the permission by default.
  pub on_module_init_lem :
      (x : RolePermission) (db : Db)
      → ((on_module_init db).0 ≡ ok tt)
        × (has x (on_module_init db).1.access.permissions
            ≡ any
                (λ r.
                  (r.is_system && any (λ c. same_role c r.code) tenant_role_codes)
                  && by_default x r)
                db.access.roles
              || has x db.access.permissions)
  on_module_init_lem x db = rw (on_module_init_step db) (
    refl,
    has-insert_missing x (wanted db) db.access.permissions
        ∙ ap (λ b. b || has x db.access.permissions)
            (has-backfill_rows x (P.find_many is_backfilled db.access.roles)
              ∙ P.find_many-any is_backfilled (by_default x) db.access.roles),
  )

  insert_present :
      (rows l : List RolePermission)
      → ((row : RolePermission) → Memᴰ row rows → has row l ≡ true)
      → insert_missing rows l ≡ l
  unfolding insert_missing
  insert_present [] l h = refl
  insert_present (row ∷ rows) l h =
      rw (h row (Memᴰ.head refl)) (insert_present rows l (λ r m. h r (Memᴰ.tail m)))

  same_row_refl : (row : RolePermission) → same_row row row ≡ true
  same_row_refl row = ground arith

  -- A second boot of the service leaves the whole database as the first left it.
  pub on_module_init_twice :
      (db : Db) → (on_module_init (on_module_init db).1).1 ≡ (on_module_init db).1
  on_module_init_twice db = rw (on_module_init_step db) (
      rw (on_module_init_step (with_rows (insert_missing (wanted db) db.access.permissions) db)) (
        ap (λ l. with_rows l db)
          (insert_present (wanted db) (insert_missing (wanted db) db.access.permissions) (λ row m.
            has-insert_missing row (wanted db) db.access.permissions
            ∙ ap (λ b. b || has row db.access.permissions)
                (any-mem (λ r. same_row r row) (wanted db) m (same_row_refl row))))))
