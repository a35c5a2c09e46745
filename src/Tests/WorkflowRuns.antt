-- ===== src/Tests/WorkflowRuns.antt =====
-- The properties of the orders, the batches and the inspections on the sample.
use abyte_tex.Base.{ℕ, ◌≡◌, refl, true, none, some, [], ◌∷◌}
use abyte_tex.Http.{ok}
use abyte_tex.Context.{assert_factory_access}
use abyte_tex.Schema
use abyte_tex.Database.{Db}
use abyte_tex.Schema.{
  ProductionOrder, sales_order_status, production_order_status, purchase_request_status,
  purchase_order_status, AuditAction, EntityType, AuditLog, same_purchase_request_status,
}
use abyte_tex.Sales.{update_status, manual_transitions, CreateSalesOrderDto, insert_order}
use abyte_tex.Sales.Totals.{has_returned, Agrees, insert_order_totals}
use abyte_tex.Database.Laws.{Ensures}
use abyte_tex.Sales.Transitions.{update_status_lem}
use abyte_tex.Production
use abyte_tex.Production.OrderStatus
use abyte_tex.Production.{order_transitions}
use abyte_tex.Production.Batches.{update_batch_status}
use abyte_tex.Production.Batches.Output.{update_batch_status_lem}
use abyte_tex.Quality.{CreateQualityInspectionDto}
use abyte_tex.Tests.{list_prisma, list_first}
use abyte_tex.Tests.Samples.{request, sample, sales_order, batch, held_batch, production_order}

abbrev updated : AuditAction → EntityType → ℕ → AuditLog
updated action entity_type id = record {
  tenant_id = some 1;
  user_id = 8;
  action = action;
  entity_type = entity_type;
  entity_id = id;
}

-- A READY order is completed only through its dispatch, and may be cancelled.
update_status_lem_example : update_status request 20 Schema.SalesOrderStatus.cancelled sample ≡ (
  ok (record sales_order { status = Schema.SalesOrderStatus.cancelled }),
  record sample {
    sales_orders = record sales_order { status = Schema.SalesOrderStatus.cancelled } ∷ [];
    audit_log = updated AuditAction.update EntityType.sales_order 20 ∷ [];
  },
)
unfolding manual_transitions assert_factory_access list_first
update_status_lem_example =
    update_status_lem request 1 refl 20 sample sales_order refl refl
      Schema.SalesOrderStatus.cancelled

abbrev in_production : Db
in_production = record sample {
  sales_orders = record sales_order { status = Schema.SalesOrderStatus.in_production } ∷ [];
}

abbrev done : ProductionOrder
done = record production_order {
  status = Schema.ProductionOrderStatus.completed;
  actual_end_date = some request.now;
}

-- Its batch has output; the linked sales order goes to QUALITY.
update_order_status_lem_example :
    Production.update_order_status request 40 Schema.ProductionOrderStatus.completed in_production
    ≡ (
      ok done,
      record in_production {
        sales_orders = record sales_order { status = Schema.SalesOrderStatus.quality } ∷ [];
        production_orders = done ∷ [];
        audit_log = updated AuditAction.update EntityType.production_order 40 ∷ [];
      },
    )
unfolding order_transitions assert_factory_access list_first
update_order_status_lem_example =
    OrderStatus.update_order_status_lem request 1 refl 40 in_production production_order refl refl
      Schema.ProductionOrderStatus.completed

update_batch_status_lem_example :
    update_batch_status request 31 Schema.BatchStatus.completed sample ≡ (
      ok (record held_batch { status = Schema.BatchStatus.completed }),
      record sample {
        production_batches =
            batch ∷ record held_batch { status = Schema.BatchStatus.completed } ∷ [];
        audit_log = updated AuditAction.update EntityType.production_batch 31 ∷ [];
      },
    )
unfolding assert_factory_access list_first
update_batch_status_lem_example =
    update_batch_status_lem request 1 refl 31 held_batch sample refl refl
      Schema.BatchStatus.completed

abbrev rejection : CreateQualityInspectionDto
rejection = record {
  factory_id = 4;
  production_batch_id = some 30;
  outcome = Schema.QualityOutcome.reject;
}

abbrev purchase : CreateSalesOrderDto
purchase = record {
  factory_id = 4;
  customer_id = 5;
  discount = some 10;
  tax = some 30;
  idempotency_key = none;
  items =
      record { product_id = 3; quantity = 1005; unit = 1; unit_price = 333; discount = some 5 }
      ∷ record { product_id = 3; quantity = 2500; unit = 1; unit_price = 199; discount = none }
      ∷ [];
}

-- The line totals are 3.30 and 4.98, and the subtotal is 8.27.
insert_order_totals_example :
    (has_returned request 1 refl (insert_order request purchase sample).0 ≡ true)
    × Ensures (Agrees request 1 refl purchase sample) (insert_order request purchase sample)
insert_order_totals_example = insert_order_totals request 1 refl purchase sample
