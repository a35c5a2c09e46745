-- ===== src/Tests/InventoryRuns.antt =====
-- The properties of the inventory on the sample.
use abyte_tex.Base.{ℕ, ◌≡◌, refl, none, some, [], ◌∷◌, pos, neg, ◌+ℤ◌, arith}
use abyte_tex.Http.{ok}
use abyte_tex.Schema
use abyte_tex.Database.{Db}
use abyte_tex.Inventory.{
  RecordMovementInput, record_movement, apply_movement, stock_row, movement_row,
}
use abyte_tex.Inventory.Recording.{IsSound, record_movement-IsSound}
use abyte_tex.Inventory.Balance.{same_item, hits}
use abyte_tex.Inventory.Posting.{found}
use abyte_tex.Inventory.Outcomes.{
  record_movement_of_some, record_movement_of_none, apply_movement_stale,
}
use abyte_tex.Tests.{list_prisma, list_first}
use abyte_tex.Tests.Samples.{request, sample, loose, in_batch, posting}

pub sample-IsSound : IsSound sample
unfolding same_item
sample-IsSound = record {
  stocked = record { unique = (refl, (refl, tt)); nonneg = (ground arith, (ground arith, tt)) };
  balanced = λ k. refl;
}

abbrev pub issue : ℕ → RecordMovementInput
issue q = record {
  warehouse_id = 2;
  location_id = none;
  product_id = some 3;
  material_id = none;
  batch_number = some 7;
  type = Schema.StockMovementType.issue;
  quantity = neg (pos q);
  unit = 1;
  reference_type = none;
  reference_id = none;
}

record_movement-IsSound_example : IsSound (record_movement request 8 (issue 200) sample).1
record_movement-IsSound_example =
    record_movement-IsSound request 8 (issue 200) sample sample-IsSound

-- The ledger's row for an issue of 200 from batch 7, and the audit entry.
abbrev issued : Schema.StockMovement
issued = movement_row (issue 200) 8 1 101

abbrev audited : Schema.AuditLog
audited = record {
  tenant_id = some 1;
  user_id = 8;
  action = Schema.AuditAction.create;
  entity_type = Schema.EntityType.stock_movement;
  entity_id = 101;
}

batch_row : found 1 (issue 200) sample.stock ≡ some in_batch
unfolding found list_first
batch_row = refl

record_movement_of_some_example : record_movement request 8 (issue 200) sample ≡ (
  ok issued,
  record sample {
    stock = loose ∷ record in_batch { quantity = pos 400; updated_at = 100 } ∷ [];
    stock_movements = posting loose 11 ∷ posting in_batch 13 ∷ issued ∷ [];
    audit_log = audited ∷ [];
    generated = 101;
  },
)
unfolding ◌+ℤ◌
record_movement_of_some_example =
    record_movement_of_some request 1 refl 8 (issue 200) sample in_batch batch_row

abbrev receive : RecordMovementInput
receive = record (issue 0) {
  warehouse_id = 15;
  type = Schema.StockMovementType.receive;
  quantity = pos 80;
}

not_found : found 1 receive sample.stock ≡ none
unfolding found list_first
not_found = refl

record_movement_of_none_example : record_movement request 8 receive sample ≡ (
  ok (movement_row receive 8 1 101),
  record sample {
    stock = loose ∷ in_batch ∷ stock_row receive 100 1 102 ∷ [];
    stock_movements = posting loose 11 ∷ posting in_batch 13 ∷ movement_row receive 8 1 101 ∷ [];
    audit_log = audited ∷ [];
    generated = 102;
  },
)
record_movement_of_none_example =
    record_movement_of_none request 1 refl 8 receive sample not_found refl

-- Another transaction opens the item's row first.
abbrev opened_first : Db → Db
opened_first db = record db { stock = loose ∷ in_batch ∷ stock_row receive 99 1 90 ∷ [] }

found_after : found 1 receive (opened_first sample).stock ≡ some (stock_row receive 99 1 90)
unfolding found list_first
found_after = refl

-- Another transaction draws 500 of the 600 before the issue of 200 is written.
abbrev drawn_first : Db → Db
drawn_first db = record db { stock = loose ∷ record in_batch { quantity = pos 100 } ∷ [] }

still_there :
    list_first (hits 1 in_batch) (drawn_first sample).stock
    ≡ some (record in_batch { quantity = pos 100 })
unfolding list_first
still_there = refl

apply_movement_stale_example : apply_movement request drawn_first 8 (issue 200) sample ≡ (
  ok issued,
  record sample {
    stock = loose ∷ record in_batch { quantity = neg (pos 100); updated_at = 100 } ∷ [];
    stock_movements = posting loose 11 ∷ posting in_batch 13 ∷ issued ∷ [];
    generated = 101;
  },
)
unfolding ◌+ℤ◌
apply_movement_stale_example =
    apply_movement_stale request 1 refl 8 (issue 200) sample drawn_first in_batch
      (record in_batch { quantity = pos 100 }) batch_row refl still_there
