-- ===== src/Tenants/Seeding.antt =====
-- What the seed of the roles leaves in the tables: the role of a company owner with its rows.
use abyte_tex.Base.{
  ℕ, ◌≡◌, refl, ◌∙◌, Bool, true, false, some, List, [], ◌∷◌, ◌==◌, ◌||◌, if◌then◌else◌, any,
  any_append, arith, ==_refl,
}
use abyte_tex.Http.{Result, ok, err, unique_violation}
use abyte_tex.Rbac.{RoleCode, permission_rows}
use abyte_tex.Schema.{Role, RolePermission}
use abyte_tex.Roles.{same_row, rows_for, add_row, create_many, seed_roles}
use abyte_tex.Tenants.{role_id_of}
use abyte_tex.Database.{Prisma, Db, for_each, ◌>>=◌, pure}
use abyte_tex.Database.Laws.{Ensures, Ensures-bind, Ensures-weaken, Ensures-transaction}

module _ ⦃P : Prisma⦄ where
  -- Permissions are added, and nothing else of the roles changes.
  abbrev Granted : List RolePermission → Db → Db → Type 0
  Granted rows db d =
      (d.access.roles ≡ db.access.roles)
      × ((q : RolePermission → Bool)
          → (any q rows || any q db.access.permissions) ≡ true
          → any q d.access.permissions ≡ true)

  pub any-create :
      {R : Type 0} (q : R → Bool) (r : R) (l : List R) → any q (P.create r l) ≡ any q l || q r
  any-create q r l = rw P.create_lem (any_append q l (r ∷ []) ∙ ground arith)

  rows-Granted :
      (rows : List RolePermission) (db : Db)
      → Ensures
          (λ _ d. Granted rows db d)
          (for_each rows
            (λ row db.
              if any (λ r. same_row r row) db.access.permissions
              then (Result.err unique_violation, db)
              else (ok tt, add_row row db))
            db)
  unfolding for_each
  rows-Granted [] db = (refl, λ q h. h)
  rows-Granted (row ∷ rows) db =
      turn (rows-Granted rows (add_row row db)) (any (λ r. same_row r row) db.access.permissions)
    where
      add : RolePermission → Db → Result (Unit {0}) × Db
      add row db =
          if any (λ r. same_row r row) db.access.permissions
          then (Result.err unique_violation, db)
          else (ok tt, add_row row db)

      go : Result (Unit {0}) × Db → Result (Unit {0}) × Db
      go r = elim r.0 [ ok _ ↦ for_each rows add r.1 | err e ↦ (err e, r.1) ]

      turn :
          Ensures (λ _ d. Granted rows (add_row row db) d) (for_each rows add (add_row row db))
          → (b : Bool)
          → Ensures
              (λ _ d. Granted (row ∷ rows) db d)
              (go (if b then (Result.err unique_violation, db) else (ok tt, add_row row db)))
      turn h true = tt
      turn h false =
          Ensures-weaken (λ _ d. Granted (row ∷ rows) db d) (for_each rows add (add_row row db)) h
            (λ _ d g. (g.0, λ q h. g.1 q (ground (arith, any-create q row db.access.permissions))))

  create_many-Granted :
      (rows : List RolePermission) (db : Db)
      → Ensures (λ _ d. Granted rows db d) (create_many rows db)
  unfolding create_many
  create_many-Granted rows db =
      Ensures-transaction (λ _ d. Granted rows db d)
        (for_each rows (λ row db.
          if any (λ r. same_row r row) db.access.permissions
          then (Result.err unique_violation, db)
          else (ok tt, add_row row db)))
        db (rows-Granted rows db)

  abbrev Grows : Db → Db → Type 0
  Grows db d =
      ((q : Role → Bool) → any q db.access.roles ≡ true → any q d.access.roles ≡ true)
      × ((q : RolePermission → Bool)
          → any q db.access.permissions ≡ true
          → any q d.access.permissions ≡ true)

  -- The role and the default permissions of a company owner.
  abbrev pub HasOwnerRole : ℕ → Db → Type 0
  HasOwnerRole id d =
      (any (λ r. r.id == id) d.access.roles ≡ true)
      × ((q : RolePermission → Bool)
          → any q (rows_for id (permission_rows RoleCode.company_owner)) ≡ true
          → any q d.access.permissions ≡ true)

  seed_roles-Grows :
      (tenant_id : ℕ) (codes : List RoleCode) (db : Db)
      → Ensures (λ _ d. Grows db d) (seed_roles tenant_id codes db)
  unfolding seed_roles
  seed_roles-Grows tenant_id [] db = (λ q h. h, λ q h. h)
  seed_roles-Grows tenant_id (code ∷ codes) db =
      let id = P.cuid db.generated in
      let r : Role = record {
        id = id;
        tenant_id = some tenant_id;
        code = code;
        is_system = true;
      } in
      Ensures-bind (λ _ d. Grows db d) (create_many (rows_for id (permission_rows code)))
        (λ _. seed_roles tenant_id codes >>= (λ rest. pure ((code, id) ∷ rest))) _
        (create_many-Granted (rows_for id (permission_rows code)) _)
        (λ _ d g.
          Ensures-bind (λ _ d'. Grows db d') (seed_roles tenant_id codes)
            (λ rest. pure ((code, id) ∷ rest)) d (seed_roles-Grows tenant_id codes d)
            (λ rest d' gr. (
              λ q h. gr.0 q (rw g.0 (ground (arith, any-create q r db.access.roles))),
              λ q h. gr.1 q (g.1 q (ground arith)),
            )))

  pub seed_owner :
      (tenant_id : ℕ) (codes : List RoleCode) (db : Db)
      → Ensures
          (λ s d.
            (role_id_of RoleCode.company_owner s ≡ some (P.cuid db.generated))
            × HasOwnerRole (P.cuid db.generated) d)
          (seed_roles tenant_id (RoleCode.company_owner ∷ codes) db)
  unfolding seed_roles
  seed_owner tenant_id codes db =
      let id = P.cuid db.generated in
      let r : Role = record {
        id = id;
        tenant_id = some tenant_id;
        code = RoleCode.company_owner;
        is_system = true;
      } in
      let Q : List (RoleCode × ℕ) → Db → Type 0 =
        λ s d. (role_id_of RoleCode.company_owner s ≡ some id) × HasOwnerRole id d in
      Ensures-bind Q (create_many (rows_for id (permission_rows RoleCode.company_owner)))
        (λ _. seed_roles tenant_id codes >>= (λ rest. pure ((RoleCode.company_owner, id) ∷ rest))) _
        (create_many-Granted (rows_for id (permission_rows RoleCode.company_owner)) _)
        (λ _ d g.
          Ensures-bind Q (seed_roles tenant_id codes)
            (λ rest. pure ((RoleCode.company_owner, id) ∷ rest)) d
            (seed_roles-Grows tenant_id codes d)
            (λ rest d' gr. (
              refl,
              (
                gr.0 (λ r. r.id == id)
                    (rw g.0 (
                      ground (
                        arith,
                        any-create (λ (r : Role). r.id == id) r db.access.roles,
                        ==_refl id,
                      ))),
                λ q h. gr.1 q (g.1 q (ground arith)),
              ),
            )))
