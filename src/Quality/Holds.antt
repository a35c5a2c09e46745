-- ===== src/Quality/Holds.antt =====
-- Quality holds: which inspections put a batch on hold, and that a held batch cannot ship.
use abyte_tex.Base.{ℕ, ◌≡◌, true, none, some, ◌&&◌, ◌==◌, ◌+◌, if◌then◌else◌, truthy, arith}
use abyte_tex.Http.{ok, err, forbidden}
use abyte_tex.Context.{TenantRequestContext, assert_factory_access}
use abyte_tex.Schema.{ProductionBatch, QualityOutcome}
use abyte_tex.Database.{Prisma, Db}
use abyte_tex.Quality.{
  CreateQualityInspectionDto, outcome_status, is_hold, flag_batch, create_inspection,
  assert_batch_shippable,
}

module _ ⦃P : Prisma⦄ (ctx : TenantRequestContext) (t : ℕ) (e : truthy ctx.tenant_id ≡ some t)
    (db : Db) where
  -- A named batch may ship exactly when the batch of that number is not on hold.
  pub assert_batch_shippable_lem :
      (n : ℕ) (b : ProductionBatch)
      → P.find_first (λ r. (r.tenant_id == t) && (r.batch_number == n)) db.production_batches
        ≡ some b
      → assert_batch_shippable ctx n db ≡ (if is_hold b.status then err forbidden else ok tt, db)
  unfolding assert_batch_shippable
  assert_batch_shippable_lem n b f = ground arith

  flag_batch-batches :
      (outcome : QualityOutcome) (i : ℕ) (b : ProductionBatch) (d : Db)
      → P.find_first (λ r. (r.tenant_id == t) && (r.id == i)) d.production_batches ≡ some b
      → (flag_batch ctx i outcome d).1.production_batches
        ≡ elim (outcome_status outcome b.status b.output_quantity) [
          | none ↦ d.production_batches
          | some s ↦
              P.update
                (λ r. (r.tenant_id == t) && (r.id == i))
                (λ r. record r { status = s })
                d.production_batches
        ]
  unfolding flag_batch
  flag_batch-batches outcome i b d f = ground arith

  -- An inspection of a batch that is found, by a user with access to the factory that the request
  -- names, changes the table of batches only where the outcome changes the status that the batch
  -- has, and then gives that batch, and no other, the new status.
  pub create_inspection-batches :
      (dto : CreateQualityInspectionDto) (user_id i : ℕ) (b : ProductionBatch)
      → truthy dto.production_batch_id ≡ some i
      → assert_factory_access ctx.factory_ids (some dto.factory_id) ≡ ok tt
      → P.find_first (λ r. (r.tenant_id == t) && (r.id == i)) db.production_batches ≡ some b
      → (create_inspection ctx dto user_id db).1.production_batches
        ≡ elim (outcome_status dto.outcome b.status b.output_quantity) [
          | none ↦ db.production_batches
          | some s ↦
              P.update
                (λ r. (r.tenant_id == t) && (r.id == i))
                (λ r. record r { status = s })
                db.production_batches
        ]
  unfolding create_inspection
  create_inspection-batches dto user_id i b n a f = ground (
    arith,
    flag_batch-batches dto.outcome i b
        (record db {
          quality_inspections =
              P.create
                (record {
                  id = P.cuid db.generated;
                  tenant_id = t;
                  factory_id = dto.factory_id;
                  inspection_number =
                      P.count (λ r. (r.tenant_id == t) && true) db.quality_inspections + 1;
                  production_batch_id = dto.production_batch_id;
                  inspected_by = user_id;
                  outcome = dto.outcome;
                })
                db.quality_inspections;
          generated = db.generated + 1;
        })
        f,
  )
