-- ===== src/Users.antt =====
-- The users of the admin interface: backend/app/routers/users.py, the user actions of
-- backend/app/routers/admin_ui.py, and backend/scripts/create_admin_pin.py.
mod Routes
pub mod Script
pub mod Admins
pub mod LastAdmin
mod History
mod Tests
unfoldable pub use Routes.*
