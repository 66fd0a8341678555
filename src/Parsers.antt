-- ===== src/Parsers.antt =====
-- backend/app/services/parser_registry.py and services/parsers/reference_booking_com.py: the
-- parsers; routers/parsers.py, schemas/parser_admin.py and the form actions on profiles of
-- routers/admin_ui.py: their administration; `load_registry` of services/email_ingest.py.
mod Libraries
mod Generic
mod Reference
mod Fields
mod Last
mod Parse
mod Routes
mod Pages
mod Choice
mod Trial
pub mod Samples
mod Tests
unfoldable pub use Libraries.*
unfoldable pub use Generic.*
unfoldable pub use Reference.*
