-- ===== src/CsvExport/Export.antt =====
-- `export_table_csv`, `export_all_tables_zip`, and the routes. Python's csv and zipfile are the
-- parameters `csv` and `zip`.
use Prim.Native.String.{◌++◌ as append_text}
use resaprint.Base.{
  ℕ, Option, none, some, String, List, [], ◌∷◌, ◌++◌, map, order_by, leb, text_eq, if◌then◌else◌,
}
use resaprint.Models.{Reservation, RoomLine}
use resaprint.Database.{
  Db, Action, Exception, http_error, gets, pure, commit, or_raise, ◌>>=◌, ◌>>◌,
}
use resaprint.Audit.{log}
use resaprint.CsvExport.Tables.{
  Columns, Stamps, Writer, reservation_columns, room_line_columns, room_columns, print_job_columns,
  print_station_columns, user_columns, audit_columns, unparsed_email_columns,
}

abbrev pub names : {A : Type 0} → Columns A → List String
names columns = map (λ c. c.0) columns

abbrev pub cells : {A : Type 0} → Columns A → A → List String
cells columns row = map (λ c. c.1 row) columns

-- The room lines of all reservations, each with the id of its reservation.
unfoldable pub all_room_lines : List Reservation → List (ℕ × RoomLine)
all_room_lines [] = []
all_room_lines (r ∷ rs) = map (λ l. (r.id, l)) r.room_lines ++ all_room_lines rs

module _ (csv : List (List String) → String) where
  -- The header and a line for each row, in the order of the ids.
  unfoldable pub table_csv : {A : Type 0} → Columns A → (A → ℕ) → List A → String
  unfolding order_by
  table_csv columns key_of rows =
      csv (names columns ∷ map (cells columns) (order_by (λ a b. leb (key_of a) (key_of b)) rows))

module _ (csv : List (List String) → String) (writer : Writer) (stamps : Stamps) where
  -- EXPORT_TABLES, by the texts of their files.
  unfoldable pub export_tables : Db → List (String × String)
  unfolding table_csv all_room_lines
  export_tables db =
      (
        "reservations",
        table_csv csv (reservation_columns writer stamps) (λ r. r.id) db.reservations.rows,
      )
      ∷ (
        "reservation_room_lines",
        table_csv csv (room_line_columns writer stamps) (λ l. l.1.id)
            (all_room_lines db.reservations.rows),
      )
      ∷ ("rooms", table_csv csv (room_columns writer stamps) (λ r. r.id) db.rooms.rows)
      ∷ (
        "print_jobs",
        table_csv csv (print_job_columns writer stamps) (λ j. j.id) db.print_jobs.rows,
      )
      ∷ (
        "print_stations",
        table_csv csv (print_station_columns writer stamps) (λ s. s.id) db.print_stations.rows,
      )
      ∷ ("users", table_csv csv (user_columns writer stamps) (λ p. p.id) db.admin_pins.rows)
      ∷ ("audit_log", table_csv csv (audit_columns writer stamps) (λ a. a.id) db.audit_log.rows)
      ∷ (
        "unparsed_emails",
        table_csv csv (unparsed_email_columns writer stamps) (λ e. e.id) db.unparsed_emails.rows,
      )
      ∷ []

  -- The table with a slug; nothing where the lookup raises KeyError.
  unfoldable pub table_by_slug : String → List (String × String) → Option String
  table_by_slug slug [] = none
  table_by_slug slug ((name, content) ∷ tables) =
      if text_eq name slug then some content else table_by_slug slug tables

  unfoldable pub export_table_csv : String → Db → Option String
  unfolding export_tables table_by_slug
  export_table_csv slug db = table_by_slug slug (export_tables db)

  abbrev pub unknown_table : Exception
  unknown_table = http_error 404 "unknown export table"

  unfoldable pub export_table_route : String → String → Action String
  unfolding export_table_csv
  export_table_route admin_label table_slug = do
    found ← gets (export_table_csv table_slug)
    content ← or_raise found unknown_table
    log admin_label "export.table" (some table_slug) none none
    commit
    pure content

  abbrev pub file_of : String × String → String × String
  file_of (slug, content) = (append_text slug ".csv", content)

  module _ (zip : List (String × String) → List ℕ) where
    unfoldable pub export_all_tables_zip : Db → List ℕ
    unfolding export_tables
    export_all_tables_zip db = zip (map file_of (export_tables db))

    unfoldable pub export_database_zip : String → Action (List ℕ)
    unfolding export_all_tables_zip
    export_database_zip admin_label = do
      content ← gets export_all_tables_zip
      log admin_label "export.database" (some "database") none none
      commit
      pure content
