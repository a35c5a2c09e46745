-- ===== src/Tests/HistoryRuns.antt =====
-- The properties of sequences of requests on the sample.
use abyte_tex.Base.{◌≡◌, refl, false, none, some, [], ◌∷◌, filter, pos}
use abyte_tex.Schema
use abyte_tex.Database.{Db}
use abyte_tex.Inventory.Recording.{IsSound}
use abyte_tex.Inventory.Transfer.{
  ManualMovementType, RecordMovementDto, TransferStockDto, post_movement, transfer_stock,
}
use abyte_tex.DispatchService.{CreateDispatchDto, create_dispatch}
use abyte_tex.Sales.{update_status}
use abyte_tex.Sales.Finality.{is_order}
use abyte_tex.StockHistory.{Reachable, Reachable-IsSound}
use abyte_tex.SalesHistory.{Step, Steps, Steps-final}
use abyte_tex.Tests.{list_prisma}
use abyte_tex.Tests.Samples.{request, sample, sales_order}

abbrev empty : Db
empty = record sample { stock = []; stock_movements = [] }

abbrev receive : RecordMovementDto
receive = record {
  warehouse_id = 2;
  location_id = none;
  product_id = some 3;
  material_id = none;
  batch_number = some 7;
  type = ManualMovementType.receive;
  quantity = pos 500;
  unit = 1;
  decrease = false;
}

abbrev transfer : TransferStockDto
transfer = record {
  from_warehouse_id = 2;
  from_location_id = none;
  to_warehouse_id = 15;
  to_location_id = none;
  product_id = some 3;
  material_id = none;
  batch_number = some 7;
  quantity = pos 200;
  unit = 1;
}

abbrev shipment : CreateDispatchDto
shipment = record {
  factory_id = 4;
  sales_order_id = 20;
  warehouse_id = 2;
  idempotency_key = none;
  items =
      record {
        product_id = 3;
        sales_order_item_id = some 21;
        quantity = 100;
        unit = 1;
        batch_number = some 7;
      }
      ∷ [];
}

-- A receipt, a transfer of a part of it, and a dispatch of another.
Reachable-IsSound_example :
    IsSound
      (create_dispatch request shipment 8
        (transfer_stock request 8 transfer (post_movement request 8 receive empty).1).1).1
Reachable-IsSound_example = Reachable-IsSound (
    Reachable.dispatch request shipment 8 (
      Reachable.transfer request 8 transfer
        (Reachable.move request 8 receive (Reachable.start empty refl refl))))

abbrev cancelled : Db
cancelled = record sample {
  sales_orders = record sales_order { status = Schema.SalesOrderStatus.cancelled } ∷ [];
}

-- A dispatch against a cancelled order, and an attempt to revive it.
Steps-final_example :
    filter
      (is_order 1 20)
      (update_status request 20 Schema.SalesOrderStatus.confirmed
        (create_dispatch request shipment 8 cancelled).1).1.sales_orders
    ≡ record sales_order { status = Schema.SalesOrderStatus.cancelled } ∷ []
Steps-final_example =
    Steps-final 1 20
      (Steps.next (Step.dispatch_step request shipment 8)
        (Steps.next (Step.status_step request 20 Schema.SalesOrderStatus.confirmed) Steps.done))
      refl
