-- ===== src/EmailIngest.antt =====
-- Emails become reservations: backend/app/services/email_ingest.py, with `ParserRegistry` of
-- backend/app/services/parser_registry.py. A parser is a record of its two methods.
mod Registry
mod Create
mod Process
pub mod Marked
pub mod Failure
pub mod Cancellation
pub mod Samples
mod Tests
unfoldable pub use Registry.*
unfoldable pub use Create.*
unfoldable pub use Process.*
