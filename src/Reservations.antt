-- ===== src/Reservations.antt =====
-- The routes of backend/app/routers/reservations.py, and the deletion of backend/app/routers/admin_ui.py.
mod Routes
mod Rooms
pub mod Planned
pub mod Created
pub mod Ingested
mod Consistency
pub mod Deletion
mod Reparsed
pub mod History
mod Tests
unfoldable pub use Routes.*
unfoldable pub use Rooms.*
