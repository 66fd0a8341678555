-- ===== src/RoomAssignment.antt =====
-- backend/app/services/room_assignment.py: which rooms are occupied, the search for a free room,
-- the automatic assignment and the room plan. The queries run on the rows of the session; the
-- database's order of room numbers is the parameter `le`.
mod Defs
mod Plan
pub mod Occupied
pub mod Search
pub mod Lines
pub mod Assignment
pub mod Consistent
pub mod Grid
mod Tests
unfoldable pub use Defs.*
unfoldable pub use Plan.*
