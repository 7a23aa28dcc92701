-- ===== src/Prelude/Rows.antt =====
-- Tables as lists of rows: the queries and updates that the services make, and their laws.
mod Defs
mod Laws
unfoldable pub use Defs.{first, select, exists, count_by, least, min_by, find, put, UniqueIds}
pub use Laws.*
