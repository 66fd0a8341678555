-- ===== src/Rooms.antt =====
-- The rooms of the hotel: backend/app/routers/rooms.py.
mod Routes
pub mod Deletion
pub mod Planned
mod Tests
unfoldable pub use Routes.*
