-- ===== src/Tests/DispatchRuns.antt =====
-- The properties of dispatches and of the idempotency keys on the sample.
use abyte_tex.Base.{ℕ, ◌≡◌, refl, true, false, none, some, [], ◌∷◌, leb, Memᴰ, ◌+◌, ◌+ℤ◌}
use abyte_tex.Http.{ok, forbidden}
use abyte_tex.Context.{assert_factory_access}
use abyte_tex.Schema
use abyte_tex.Schema.{sales_order_status}
use abyte_tex.Database.{for_each}
use abyte_tex.Database.Effects.{Returns}
use abyte_tex.Idempotency.{check_key, record_key}
use abyte_tex.Idempotency.Replay.{check_key-record_key}
use abyte_tex.Inventory.{record_movement_in, apply_movement, find_stock, settle_stock}
use abyte_tex.Inventory.Recording.{IsSound}
use abyte_tex.Quality.{assert_batch_shippable, is_hold}
use abyte_tex.DispatchService.{
  DispatchItemDto, CreateDispatchDto, create_dispatch, dispatch_anew, check_dispatch, check_items,
  check_remaining, check_batch, find_item, ship, open_dispatch, open_item, issue_item,
  record_delivery, roll_forward, eligible_statuses,
}
use abyte_tex.DispatchService.Shipping.{create_dispatch-IsSound, create_dispatch_atomic}
use abyte_tex.DispatchService.Checks.{create_dispatch-fits, create_dispatch-not_held}
use abyte_tex.Tests.{list_prisma, list_first}
use abyte_tex.Tests.Samples.{request, sample, sales_order_item, batch}
use abyte_tex.Tests.InventoryRuns.{sample-IsSound}

abbrev item : ℕ → ℕ → DispatchItemDto
item batch_number quantity = record {
  product_id = 3;
  sales_order_item_id = some 21;
  quantity = quantity;
  unit = 1;
  batch_number = some batch_number;
}

abbrev dto : ℕ → ℕ → CreateDispatchDto
dto batch_number quantity = record {
  factory_id = 4;
  sales_order_id = 20;
  warehouse_id = 2;
  idempotency_key = none;
  items = item batch_number quantity ∷ [];
}

create_dispatch-IsSound_example : IsSound (create_dispatch request (dto 7 200) 8 sample).1
create_dispatch-IsSound_example =
    create_dispatch-IsSound request (dto 7 200) 8 sample sample-IsSound

-- Batch 9 is on hold.
create_dispatch_atomic_example : (create_dispatch request (dto 9 200) 8 sample).1 ≡ sample
unfolding create_dispatch check_key dispatch_anew check_dispatch check_items check_remaining
    check_batch find_item assert_batch_shippable eligible_statuses assert_factory_access for_each
    list_first
create_dispatch_atomic_example = create_dispatch_atomic request (dto 9 200) 8 sample forbidden refl

dispatched : Returns (create_dispatch request (dto 7 200) 8 sample).0
unfolding create_dispatch check_key dispatch_anew check_dispatch check_items check_remaining
    check_batch find_item assert_batch_shippable eligible_statuses assert_factory_access for_each
    list_first ship open_dispatch open_item issue_item record_delivery roll_forward
    record_movement_in apply_movement find_stock settle_stock record_key ◌+ℤ◌
dispatched = tt

create_dispatch-fits_example : leb (100 + 200) 500 ≡ true
unfolding find_item
create_dispatch-fits_example =
    create_dispatch-fits request 1 refl (dto 7 200) 8 sample refl dispatched (item 7 200) 21
      sales_order_item (Memᴰ.head refl) refl refl

create_dispatch-not_held_example : is_hold batch.status ≡ false
unfolding list_first
create_dispatch-not_held_example =
    create_dispatch-not_held request 1 refl (dto 7 200) 8 sample refl dispatched (item 7 200) 7
      batch (Memᴰ.head refl) refl refl

check_key-record_key_example :
    (check_key request Schema.dispatch_create
      (some 77)
      (record_key request Schema.dispatch_create (some 77) 30 sample).1).0
    ≡ ok (some 30)
unfolding list_first
check_key-record_key_example =
    check_key-record_key request Schema.dispatch_create 1 77 30 (some 77) sample refl refl refl
