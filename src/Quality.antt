-- ===== src/Quality.antt =====
-- Quality inspections (apps/api/src/quality/quality.service.ts). Measurements, notes and defects
-- have no effect on any other table and are left out.
pub mod Holds
use abyte_tex.Base.{
  ℕ, zero, ◌+◌, Bool, true, false, Option, none, some, ◌==◌, ltb, if◌then◌else◌, truthy,
}
use abyte_tex.Http.{Error, Result, ok, err, conflict, forbidden, not_found}
use abyte_tex.Context.{TenantRequestContext, assert_factory_access}
use abyte_tex.Schema
use abyte_tex.Schema.{ProductionBatch, BatchStatus, QualityInspection, QualityOutcome}
use abyte_tex.Database.{
  Prisma, Db, production_batches, quality_inspections, Action, ◌>>=◌, ◌>>◌, pure, throw, check,
  or_throw, log, find_first, count, create, update,
}

pub record CreateQualityInspectionDto : Type 0 where
  pub factory_id : ℕ
  pub production_batch_id : Option ℕ
  pub outcome : QualityOutcome

-- The status that an inspection gives its batch, if it changes it: REJECT and HOLD put a batch on
-- hold, PASS releases a held one, to COMPLETED if it has output.
unfoldable pub outcome_status : QualityOutcome → BatchStatus → ℕ → Option BatchStatus
outcome_status QualityOutcome.reject BatchStatus.in_progress output = some BatchStatus.hold
outcome_status QualityOutcome.reject BatchStatus.completed output = some BatchStatus.hold
outcome_status QualityOutcome.hold BatchStatus.in_progress output = some BatchStatus.hold
outcome_status QualityOutcome.hold BatchStatus.completed output = some BatchStatus.hold
outcome_status QualityOutcome.pass BatchStatus.hold output =
    some (if ltb 0 output then BatchStatus.completed else BatchStatus.in_progress)
outcome_status _ _ output = none

abbrev pub is_hold : BatchStatus → Bool
is_hold BatchStatus.hold = true
is_hold _ = false

module _ ⦃P : Prisma⦄ (ctx : TenantRequestContext) where
  -- The part of `createInspection` under `if (dto.productionBatchId)`.
  unfoldable pub flag_batch : ℕ → QualityOutcome → Action (Unit {0})
  flag_batch batch_id outcome = do
    found ← find_first production_batches ctx (λ b. b.id == batch_id)
    elim found [
      | none ↦ pure tt
      | some batch ↦ elim (outcome_status outcome batch.status batch.output_quantity) [
        | none ↦ pure tt
        | some status ↦ do
          update production_batches ctx (λ b. b.id == batch_id) (λ b. record b { status = status })
          log ctx Schema.AuditAction.update Schema.EntityType.production_batch batch_id
      ]
    ]

  unfoldable pub create_inspection : CreateQualityInspectionDto → ℕ → Action QualityInspection
  create_inspection dto inspected_by = do
    or_throw (truthy ctx.tenant_id) conflict
    check (assert_factory_access ctx.factory_ids (some dto.factory_id))
    n ← count quality_inspections ctx (λ i. true)
    inspection ← create quality_inspections ctx (λ t i. record {
      id = i;
      tenant_id = t;
      factory_id = dto.factory_id;
      inspection_number = n + 1;
      production_batch_id = dto.production_batch_id;
      inspected_by = inspected_by;
      outcome = dto.outcome;
    })
    elim (truthy dto.production_batch_id) [ none ↦ pure tt | some b ↦ flag_batch b dto.outcome ]
    log ctx Schema.AuditAction.create Schema.EntityType.quality_inspection inspection.id
    pure inspection

  unfoldable pub assert_batch_shippable : ℕ → Action (Unit {0})
  assert_batch_shippable batch_number = do
    found ← find_first production_batches ctx (λ b. b.batch_number == batch_number)
    elim found [
      | none ↦ pure tt
      | some batch ↦ if is_hold batch.status then throw forbidden else pure tt
    ]
