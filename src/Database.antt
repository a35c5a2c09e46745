-- ===== src/Database.antt =====
-- The database as the services use it: its tables, the client as a parameter with the documented
-- behaviour of its queries, and requests as actions on the tables.
mod Tables
mod AccessTables
mod PlantTables
mod SiteTables
mod Client
mod Actions
pub mod Raw
pub mod Laws
pub mod Effects
pub mod Creation
pub use Tables.*
pub use AccessTables.*
pub use PlantTables.*
pub use SiteTables.*
pub use Client.*
unfoldable pub use Actions.*
