-- ===== src/Database.antt =====
-- The database and a session on it: backend/app/db.py, and what the handlers use of SQLAlchemy's
-- AsyncSession. A table is the list of its rows in the order of insertion; its ids come from a
-- sequence that never gives a number twice. A session sees its own flushed changes (`current`);
-- `commit` makes them durable, `rollback` and the end of a request drop what was not committed.
mod State
mod Monad
mod Tables
mod Hoare
mod Frame
mod Total
pub use State.*
unfoldable pub use Monad.*
pub use Tables.*
pub use Hoare.*
pub use Frame.*
pub use Total.*
