-- ===== src/Receipt.antt =====
-- `build_reservation_receipt` of backend/app/services/printing.py: the receipt of a reservation as
-- bytes for the printer and as a text.
mod Draw
mod Defs
pub mod Appends
pub mod Body
pub mod Banner
mod Tests
unfoldable pub use Draw.*
unfoldable pub use Defs.*
