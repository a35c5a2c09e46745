-- ===== src/Lib.antt =====
-- The workflows and the access control of AbyteTex, a multi-tenant ERP for textile factories
-- (apps/api, a NestJS server on Prisma and PostgreSQL).
--
-- A sales order is confirmed, planned, produced and checked; a dispatch issues its goods from stock
-- and rolls its status forward. Purchase requests are approved by somebody else, become purchase
-- orders, and their goods are received, accepted and posted to stock. Production batches consume
-- material and post their output. Inspections put batches on hold, and a held batch does not ship.
-- All of them move stock through one service, which keeps a ledger and a balance for each item.
-- Breakdowns stop machines and maintenance jobs release them; attendance and payroll are recorded.
-- A request comes with an access token, which the guards turn into a user with the permissions of
-- its roles; the client then scopes every query to the tenant of the user.
--
--   Base              numbers, integers, lists and options as the sources use them
--   Http              the exceptions, as values (HttpException and the errors of Prisma)
--   Context           apps/api/src/common/tenant-context.ts and factory-access.util.ts
--   Workflow          apps/api/src/common/workflow.util.ts: assertValidTransition
--   Rbac              apps/api/src/common/rbac.constants.ts: the default permissions of the roles
--   Schema            the rows of prisma/schema.prisma, a child for each domain
--   Database          the tables, the tenant-scoped client of apps/api/src/prisma/prisma.service.ts,
--                     `$transaction`, apps/api/src/audit/audit.service.ts, and how requests compose
--   TenantScope       apps/api/src/prisma/prisma.service.ts and tenant-scoped-models.ts: the query
--                     extension on the arguments of an operation (all_operations)
--   Auth              apps/api/src/auth: auth.service.ts; Strategy: strategies/jwt.strategy.ts;
--                     Libraries: what they rely on of argon2, SHA-256 and JSON web tokens
--   Guards            apps/api/src/common/guards: authorize runs them in the order of app.module.ts
--   Roles             apps/api/src/roles: roles.service.ts, role-seed.util.ts and
--                     permission-backfill.service.ts (on_module_init)
--   Users             apps/api/src/users/users.service.ts
--   Tenants           apps/api/src/tenants/tenants.service.ts
--   Pagination        apps/api/src/common/dto/pagination.dto.ts
--   Idempotency       apps/api/src/common/idempotency.service.ts: check_key, record_key
--   Inventory         apps/api/src/inventory/inventory.service.ts: record_movement (recordMovement
--                     in a transaction of its own), record_movement_in (in a caller's),
--                     apply_movement, settle_stock; Transfer: transferStock and the POST handlers
--   Sales             apps/api/src/sales/sales.service.ts
--   Quality           apps/api/src/quality/quality.service.ts
--   DispatchService   apps/api/src/dispatch/dispatch.service.ts
--   Production        apps/api/src/production/production.service.ts (Batches: output, consumption)
--   Procurement       apps/api/src/procurement/procurement.service.ts (Receipts: goods receipts)
--   Maintenance       apps/api/src/maintenance/maintenance.service.ts
--   Downtime          apps/api/src/downtime/downtime.service.ts
--   Attendance        apps/api/src/attendance/attendance.service.ts
--   Payroll           apps/api/src/payroll/payroll.service.ts
--   Notifications     apps/api/src/notifications/notifications.service.ts
--   Catalogue         the services of master data: apps/api/src/customers, suppliers, factories,
--                     materials, products, departments, shifts, warehouses, machines, employees
--   Web               apps/web/src: the session of the client (store/auth-store.ts), its fetch
--                     wrapper (lib/api-client.ts: api_fetch) and what it shows (components/layout,
--                     components/shared); Api: the edge of the API that it meets
--   StockHistory, SalesHistory   any sequence of the requests that move stock, or sales orders
--   Tests             the client on lists, a small database, and the theorems applied to it
--
-- A function has the name of the source's method in snake case. A request is an action on the
-- database: it returns a value or an exception together with the database it leaves, so that a write
-- before an exception stays, unless it stood in a `$transaction`, which is rolled back. Where a
-- method is long, its parts have names of their own, and the parent composes them as the code does.
--
-- The Prisma client and PostgreSQL are not part of the repository: their queries are a parameter, the
-- record Database.Client.Prisma, with what their documentation says of the results. A row of a
-- tenant-scoped model is found only with the tenant of the request, and a query without one is a 403,
-- on a model that is not tenant-scoped too, where the program would run it.
-- A separate read and write of one transaction can be interleaved with other transactions (READ
-- COMMITTED): apply_movement takes what they commit in between as an argument.
--
-- Identifiers, texts and dates are natural numbers; 0 is the empty text, which the sources' tests
-- treat as absent. Quantities are whole thousandths and prices whole hundredths, the scales of the
-- database's decimals, so that their sums and products are exact; the sources compute them as
-- floating point numbers, whose rounding is not modelled. The columns store an amount rounded to a
-- nearest hundredth, which is all that is assumed of the rounding (to_cents). What can be negative
-- is an integer. Loops are structural recursion over lists, which needs no fuel; only the fetch
-- wrapper of the web client, which calls itself, takes fuel, and two rounds are enough for it
-- (Web.Requests). Sales and purchase orders are refused a number that another one has; the other
-- rows with a number that follows from a count are created without that check.
--
-- The services of accounts use the unscoped client `prisma.raw` (Database.Raw), whose queries reach
-- the rows of every tenant. Cryptography is a parameter too: the random draws are numbered, and a
-- password verifies against its hash, which is all that is assumed of argon2; that a token is new is
-- a hypothesis where it is needed, and the unique index on the hashes does the rest.
--
-- Not modelled: the dashboards and the paginated lists but that of notifications, which only read;
-- costing, which stores rounded quotients of floating point numbers; the controllers and the
-- interceptors, which pass values on, but for the refresh endpoint; notes and display data; the rest
-- of the web client, which renders what the API returns. Ids that another table refers to are looked
-- up as the sources do, and no foreign key is assumed.
pub mod Base
pub mod Http
pub mod Context
pub mod Workflow
pub mod Rbac
pub mod Schema
pub mod Database
pub mod TenantScope
pub mod Auth
pub mod Pagination
pub mod Guards
pub mod Roles
pub mod Users
pub mod Tenants
pub mod Inventory
pub mod Idempotency
pub mod Sales
pub mod Quality
pub mod DispatchService
pub mod Production
pub mod Procurement
pub mod Maintenance
pub mod Downtime
pub mod Attendance
pub mod Payroll
pub mod Notifications
pub mod StockHistory
pub mod SalesHistory
pub mod Catalogue
pub mod Web
pub mod Tests
