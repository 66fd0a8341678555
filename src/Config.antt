-- ===== src/Config.antt =====
-- The row of settings: backend/app/services/app_settings.py and backend/app/routers/config.py.
-- `env` holds the values of backend/app/config.py, and `encrypt` stands for the Fernet cipher.
mod Defs
pub mod Singleton
mod Tests
unfoldable pub use Defs.*
