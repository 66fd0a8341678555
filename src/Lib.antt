-- ===== src/Lib.antt =====
-- The backend of ResaPrint: reservations that arrive by email, rooms, receipts and print jobs.
--
-- A request or an email runs a handler on a session of the database. Emails become
-- reservations (EmailIngest), which get rooms (RoomAssignment) and are printed (Receipt, Escpos,
-- PrintJobs); people log in with a PIN, printing agents with a key (Auth), and admins manage users,
-- settings, rooms, stations, parser profiles and reservations (Users, Config, Rooms, Stations,
-- Parsers, Reservations). Emails that nobody could read wait for an operator (UnparsedEmails). The
-- pages and their forms are AdminUi, the export of the tables is CsvExport. Most changes leave an
-- entry in the audit log.
--
-- Files and the code they model:
--   Models          backend/app/models/*.py: a record for each table, a data type for each enum
--   Database        backend/app/db.py and what the handlers use of SQLAlchemy's AsyncSession
--   Audit           backend/app/services/audit.py: `log`
--   Text            Python's operations on texts that the code uses
--   Patch           the fields of a PATCH body (`exclude_unset=True`)
--   RoomAssignment  backend/app/services/room_assignment.py: Defs has the occupancy, the search and
--                   the assignment, Plan has `rooms_occupied_on_date` and `room_plan_grid`
--   Auth            backend/app/services/auth_service.py (Defs), backend/app/deps.py (Guards),
--                   backend/app/routers/auth.py (Routes)
--   Escpos          backend/app/services/escpos_builder.py: Bytes has the commands, Builder the class
--   Receipt         `build_reservation_receipt` of backend/app/services/printing.py
--   PrintJobs       backend/app/services/printing.py (Dispatch), backend/app/routers/print_jobs.py
--                   (Routes)
--   Users           backend/app/routers/users.py, two forms of backend/app/routers/admin_ui.py,
--                   and backend/scripts/create_admin_pin.py (Script)
--   Stations        backend/app/routers/stations.py and three forms of
--                   backend/app/routers/admin_ui.py
--   Parsers         backend/app/services/parser_registry.py (Generic),
--                   backend/app/services/parsers/reference_booking_com.py and `load_registry`
--                   (Reference), backend/app/routers/parsers.py (Routes), and the forms on profiles
--                   of backend/app/routers/admin_ui.py (Pages); Libraries has their parameters
--   UnparsedEmails  the forms on unparsed emails of backend/app/routers/admin_ui.py
--   AdminUi         backend/app/routers/admin_ui.py: the forms for reservations and walk-ins
--                   (Booking), the sheet and the room plan (Sheet), printing (Printing), the forms on
--                   rooms, users and settings (Actions), and the lists (Pages)
--   CsvExport       backend/app/services/csv_export.py
--   Rooms           backend/app/routers/rooms.py
--   Config          backend/app/services/app_settings.py and backend/app/routers/config.py
--   EmailIngest     backend/app/services/email_ingest.py, and the registry of
--                   backend/app/services/parser_registry.py
--   Worker          `load_imap_connection_info` and the interval of the poll loop in
--                   backend/app/services/email_ingest.py
--   Reservations    backend/app/routers/reservations.py (Routes, Rooms) and two forms of
--                   backend/app/routers/admin_ui.py
-- The definitions bear the names of the code's functions, classes and attributes; the parts of a
-- function are helpers of their own. Base has the shared names and the queries over rows.
--
-- State. A table is the list of its rows with the next id of its sequence; a reservation carries its
-- room lines. A session is what is committed and what it sees. A handler (`Action`) maps a session to
-- an outcome, returned or raised, and a session; `request` runs it on a session of its own and keeps
-- what was committed.
--
-- Numbers are natural numbers: ids, dates by their ordinal, times in seconds, counters. The loops run
-- over lists, or over the days between two dates, whose number is known; no fuel is needed.
--
-- Parameters stand for code outside the repository: the database's order of texts (`le`), bcrypt
-- (`verify`, `hash_pin`), the signed tokens of itsdangerous (`loads`), the Fernet cipher (`encrypt`),
-- Python's codecs (`encode`) and formats (`Formats`), the socket of a printer (`send`), and the clock
-- (`now`, one value for a call). A parser is the record of its two methods, which may raise.
--
-- The parsers' libraries (`re`, lxml, `strptime`, `Decimal`, `int`, pydantic) are the record
-- `Engine`; the export's csv, zipfile and texts of values are parameters of their own. A room that
-- SQLAlchemy loaded with a reservation stays as it was loaded until the handler loads it again.
--
-- A row of an email that is inserted may be refused by the database, for a text that is too long or
-- a price that is too large (`accepts`, `accepts_email`); the other forms' values are taken to fit
-- their columns. A query without ORDER BY is taken to give the rows in the order of insertion, and
-- two such queries to give them in the same order. The IMAP server's answer to a mark is `mark`.
--
-- Not modelled: templates, the bodies of most responses, the reading of MIME messages, the calls of
-- the IMAP server, migrations, start-up, and the Windows agent, which are I/O or other languages; and
-- not yet the list of the audit log. The loop of `poll_once` is not modelled: its emails share one
-- session, in which a rollback expires the profiles that the parsers read; `process_email` is the
-- processing of one email in a session whose profiles are loaded. The timestamps `updated_at` are
-- left out. A violated constraint of the database is modelled where a handler can meet it: a null, a
-- missing row that a foreign key names, or a number, name or slug that another row has. Numbers that
-- a form or an email gives are taken to be not negative.

pub mod Base
pub mod Models
pub mod Database
pub mod RoomAssignment
pub mod Audit
pub mod Text
pub mod Auth
pub mod Escpos
pub mod PrintJobs
pub mod Patch
pub mod Users
pub mod Worker
pub mod Stations
pub mod Parsers
pub mod UnparsedEmails
pub mod AdminUi
pub mod CsvExport
pub mod Rooms
pub mod Reservations
pub mod EmailIngest
pub mod Config
pub mod Receipt
