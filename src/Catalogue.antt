-- ===== src/Catalogue.antt =====
-- Master data: the services that create, read and update the sites, the parties and the goods of a
-- tenant, one child for each, and what one tenant can do to the rows of another.
pub mod Customers
pub mod Suppliers
pub mod Factories
pub mod Materials
pub mod Products
pub mod Sites
pub mod Staffing
pub mod Isolation
pub mod Requests
