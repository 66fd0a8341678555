-- ===== src/PrintJobs.antt =====
-- The life of a print job: `enqueue_print_job` and `dispatch_lan_job` of
-- backend/app/services/printing.py, and the routes of backend/app/routers/print_jobs.py.
mod Dispatch
mod Routes
pub mod Queue
pub mod Delivery
pub mod Steps
pub mod History
mod Tests
unfoldable pub use Dispatch.*
unfoldable pub use Routes.*
