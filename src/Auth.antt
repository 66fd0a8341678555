-- ===== src/Auth.antt =====
-- PIN login with lockout, and the guards of the routes: backend/app/services/auth_service.py,
-- backend/app/deps.py, backend/app/routers/auth.py and backend/app/config.py.
mod Defs
mod Guards
mod Routes
pub mod Login
pub mod Lockout
pub mod Roles
pub mod StationKey
mod Tests
unfoldable pub use Defs.*
unfoldable pub use Guards.*
unfoldable pub use Routes.*
