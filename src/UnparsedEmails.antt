-- ===== src/UnparsedEmails.antt =====
-- The form actions on unparsed emails of backend/app/routers/admin_ui.py.
mod Actions
pub mod Frames
mod Stored
mod Uncommitted
mod Reparse
mod Tests
unfoldable pub use Actions.*
