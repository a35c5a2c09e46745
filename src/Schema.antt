-- ===== src/Schema.antt =====
-- The rows of the tables (prisma/schema.prisma), one child for each domain. Names, notes, dates of
-- display and contact data are left out. An identifier or a text is a number, 0 the empty text; a
-- generated document number n + 1 stands for its padded text ("SO-000001"). Quantities are whole
-- thousandths, the scale of `Decimal(14, 3)`; prices and totals are whole hundredths;
-- a quantity times a price is exact in units of 10⁻⁵, and rounded when it is stored.
mod Inventory
mod Sales
mod Production
mod Procurement
mod Masters
mod Catalogue
mod Access
mod Maintenance
mod People
mod Notifications
pub use Inventory.*
pub use Sales.*
pub use Production.*
pub use Procurement.*
pub use Masters.*
pub use Catalogue.*
pub use Access.*
pub use Maintenance.*
pub use People.*
pub use Notifications.*
