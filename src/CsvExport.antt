-- ===== src/CsvExport.antt =====
-- backend/app/services/csv_export.py, and its routes in routers/admin_ui.py.
mod Tables
mod Export
mod Secrets
mod Tests
unfoldable pub use Tables.*
unfoldable pub use Export.*
