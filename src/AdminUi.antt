-- ===== src/AdminUi.antt =====
-- backend/app/routers/admin_ui.py: the pages, and the form actions on reservations, rooms, users and
-- the settings. The form actions on stations, profiles and unparsed emails stand with Stations,
-- Parsers and UnparsedEmails.
mod Booking
mod Weeks
pub mod Planned
mod Sheet
mod Arrivals
mod Printing
mod Actions
mod Pages
mod Tests
unfoldable pub use Booking.*
unfoldable pub use Sheet.*
unfoldable pub use Printing.*
unfoldable pub use Actions.*
unfoldable pub use Pages.*
