-- ===== src/Models.antt =====
-- The tables of the database: backend/app/models. A row is a record with the columns that the
-- code reads or writes; dates are day ordinals, times are seconds, texts are native texts.
-- `updated_at`, and `created_at` where no query orders by it, are columns that the database
-- fills in by itself and that no modelled code reads: they are left out.
mod Values
mod Stay
mod Printing
mod Access
mod Mapping
pub use Values.*
pub use Stay.*
pub use Printing.*
pub use Access.*
pub use Mapping.*
