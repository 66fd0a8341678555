-- ===== src/Stations.antt =====
-- backend/app/routers/stations.py, schemas/print_station.py, and the form actions on stations of
-- routers/admin_ui.py.
mod Routes
mod Pairing
mod Owned
mod History
mod Tests
unfoldable pub use Routes.*
