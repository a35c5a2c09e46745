-- ===== src/Database/Tables.antt =====
-- The contents of the database, each table the list of its rows, and the handle by which a query
-- names a table (`prisma.db.salesOrder`, …). `owned` is the `tenantId` filter that
-- apps/api/src/prisma/prisma.service.ts adds for the models of
-- apps/api/src/prisma/tenant-scoped-models.ts; it is always true for the others.
use abyte_tex.Base.{ℕ, Bool, true, List, ◌==◌}
use abyte_tex.Schema.{
  Stock, StockMovement, SalesOrder, SalesOrderItem, Dispatch, DispatchItem, ProductionOrder,
  ProductionBatch, MaterialConsumption, QualityInspection, PurchaseRequest, PurchaseOrder,
  PurchaseOrderItem, GoodsReceipt, GoodsReceiptItem, Factory, Warehouse, Customer, Supplier,
  Material, Department, Shift, Location, ProductCategory, Product, IdempotencyKey, AuditLog, Tenant,
  User, LoginHistory, RefreshToken, PasswordResetToken, Role, RolePermission, UserRole,
  UserPermissionOverride, UserFactoryAccess, Notification, Machine, Downtime, MaintenanceJob,
  MaintenanceSchedule, Employee, Attendance, PayrollPeriod, PayrollEntry,
}

-- The tables of users, credentials, roles and permissions.
pub record AccessDb : Type 0 where
  pub tenants : List Tenant
  pub users : List User
  pub login_history : List LoginHistory
  pub refresh_tokens : List RefreshToken
  pub password_reset_tokens : List PasswordResetToken
  pub roles : List Role
  pub permissions : List RolePermission
  pub user_roles : List UserRole
  pub permission_overrides : List UserPermissionOverride
  pub factory_access : List UserFactoryAccess

-- The tables of machines, maintenance, employees and pay.
pub record PlantDb : Type 0 where
  pub machines : List Machine
  pub downtimes : List Downtime
  pub maintenance_jobs : List MaintenanceJob
  pub maintenance_schedules : List MaintenanceSchedule
  pub employees : List Employee
  pub attendances : List Attendance
  pub payroll_periods : List PayrollPeriod
  pub payroll_entries : List PayrollEntry

-- What is in a factory or a catalogue and no workflow looks up.
pub record SiteDb : Type 0 where
  pub departments : List Department
  pub shifts : List Shift
  pub locations : List Location
  pub product_categories : List ProductCategory
  pub notifications : List Notification

-- `generated` counts the identifiers drawn from `cuid()`.
pub record Db : Type 0 where
  pub stock : List Stock
  pub stock_movements : List StockMovement
  pub sales_orders : List SalesOrder
  pub sales_order_items : List SalesOrderItem
  pub dispatches : List Dispatch
  pub dispatch_items : List DispatchItem
  pub production_orders : List ProductionOrder
  pub production_batches : List ProductionBatch
  pub material_consumptions : List MaterialConsumption
  pub quality_inspections : List QualityInspection
  pub purchase_requests : List PurchaseRequest
  pub purchase_orders : List PurchaseOrder
  pub purchase_order_items : List PurchaseOrderItem
  pub goods_receipts : List GoodsReceipt
  pub goods_receipt_items : List GoodsReceiptItem
  pub factories : List Factory
  pub warehouses : List Warehouse
  pub customers : List Customer
  pub suppliers : List Supplier
  pub materials : List Material
  pub products : List Product
  pub idempotency_keys : List IdempotencyKey
  pub audit_log : List AuditLog
  pub access : AccessDb
  pub plant : PlantDb
  pub site : SiteDb
  pub generated : ℕ

pub record Table (R : Type 0) : Type 0 where
  pub rows : Db → List R
  pub put : List R → Db → Db
  pub owned : ℕ → R → Bool

abbrev pub stock : Table Stock
stock = record {
  rows = λ db. db.stock;
  put = λ l db. record db { stock = l };
  owned = λ t r. r.tenant_id == t;
}

abbrev pub stock_movements : Table StockMovement
stock_movements = record {
  rows = λ db. db.stock_movements;
  put = λ l db. record db { stock_movements = l };
  owned = λ t r. r.tenant_id == t;
}

abbrev pub sales_orders : Table SalesOrder
sales_orders = record {
  rows = λ db. db.sales_orders;
  put = λ l db. record db { sales_orders = l };
  owned = λ t r. r.tenant_id == t;
}

abbrev pub sales_order_items : Table SalesOrderItem
sales_order_items = record {
  rows = λ db. db.sales_order_items;
  put = λ l db. record db { sales_order_items = l };
  owned = λ t r. true;
}

abbrev pub dispatches : Table Dispatch
dispatches = record {
  rows = λ db. db.dispatches;
  put = λ l db. record db { dispatches = l };
  owned = λ t r. r.tenant_id == t;
}

abbrev pub dispatch_items : Table DispatchItem
dispatch_items = record {
  rows = λ db. db.dispatch_items;
  put = λ l db. record db { dispatch_items = l };
  owned = λ t r. true;
}

abbrev pub production_orders : Table ProductionOrder
production_orders = record {
  rows = λ db. db.production_orders;
  put = λ l db. record db { production_orders = l };
  owned = λ t r. r.tenant_id == t;
}

abbrev pub production_batches : Table ProductionBatch
production_batches = record {
  rows = λ db. db.production_batches;
  put = λ l db. record db { production_batches = l };
  owned = λ t r. r.tenant_id == t;
}

abbrev pub material_consumptions : Table MaterialConsumption
material_consumptions = record {
  rows = λ db. db.material_consumptions;
  put = λ l db. record db { material_consumptions = l };
  owned = λ t r. true;
}

abbrev pub quality_inspections : Table QualityInspection
quality_inspections = record {
  rows = λ db. db.quality_inspections;
  put = λ l db. record db { quality_inspections = l };
  owned = λ t r. r.tenant_id == t;
}

abbrev pub purchase_requests : Table PurchaseRequest
purchase_requests = record {
  rows = λ db. db.purchase_requests;
  put = λ l db. record db { purchase_requests = l };
  owned = λ t r. r.tenant_id == t;
}

abbrev pub purchase_orders : Table PurchaseOrder
purchase_orders = record {
  rows = λ db. db.purchase_orders;
  put = λ l db. record db { purchase_orders = l };
  owned = λ t r. r.tenant_id == t;
}

abbrev pub purchase_order_items : Table PurchaseOrderItem
purchase_order_items = record {
  rows = λ db. db.purchase_order_items;
  put = λ l db. record db { purchase_order_items = l };
  owned = λ t r. true;
}

abbrev pub goods_receipts : Table GoodsReceipt
goods_receipts = record {
  rows = λ db. db.goods_receipts;
  put = λ l db. record db { goods_receipts = l };
  owned = λ t r. r.tenant_id == t;
}

abbrev pub goods_receipt_items : Table GoodsReceiptItem
goods_receipt_items = record {
  rows = λ db. db.goods_receipt_items;
  put = λ l db. record db { goods_receipt_items = l };
  owned = λ t r. true;
}

abbrev pub factories : Table Factory
factories = record {
  rows = λ db. db.factories;
  put = λ l db. record db { factories = l };
  owned = λ t r. r.tenant_id == t;
}

abbrev pub warehouses : Table Warehouse
warehouses = record {
  rows = λ db. db.warehouses;
  put = λ l db. record db { warehouses = l };
  owned = λ t r. r.tenant_id == t;
}

abbrev pub customers : Table Customer
customers = record {
  rows = λ db. db.customers;
  put = λ l db. record db { customers = l };
  owned = λ t r. r.tenant_id == t;
}

abbrev pub suppliers : Table Supplier
suppliers = record {
  rows = λ db. db.suppliers;
  put = λ l db. record db { suppliers = l };
  owned = λ t r. r.tenant_id == t;
}

abbrev pub materials : Table Material
materials = record {
  rows = λ db. db.materials;
  put = λ l db. record db { materials = l };
  owned = λ t r. r.tenant_id == t;
}

abbrev pub products : Table Product
products = record {
  rows = λ db. db.products;
  put = λ l db. record db { products = l };
  owned = λ t r. r.tenant_id == t;
}

abbrev pub idempotency_keys : Table IdempotencyKey
idempotency_keys = record {
  rows = λ db. db.idempotency_keys;
  put = λ l db. record db { idempotency_keys = l };
  owned = λ t r. r.tenant_id == t;
}
