-- ===== src/CsvExport/Secrets.antt =====
-- What an export does not depend on.
use resaprint.Base.{
  ℕ, ◌≡◌, refl, sym, ◌∙◌, ap, Bool, none, String, List, [], ◌∷◌, map, order_by, insert_by, leb,
  Bool-cases, inl, inr,
}
use resaprint.Models.{Reservation, PrintJob, PrintStation, AdminPin, UnparsedEmail}
use resaprint.Database.{Db}
use resaprint.CsvExport.Tables.{Columns, Stamps, Writer}
use resaprint.CsvExport.Export.{
  cells, names, all_room_lines, table_csv, export_tables, export_table_csv, export_all_tables_zip,
  table_by_slug, file_of,
}

-- The rows without what an export must not show.
abbrev pub without_pin : AdminPin → AdminPin
without_pin p = record p { pin_hash = "" }

abbrev pub without_key : PrintStation → PrintStation
without_key s = record s { api_key_hash = none; api_key_prefix = none }

abbrev pub without_payload : PrintJob → PrintJob
without_payload j = record j { escpos_bytes = none; payload_text = "" }

abbrev pub without_source : Reservation → Reservation
without_source r = record r { raw_source_text = none; extra_fields = none }

abbrev pub without_body : UnparsedEmail → UnparsedEmail
without_body e = record e { body = "" }

-- The database without secrets: hashes of PINs and keys, settings, raw emails and print data.
unfoldable pub public_part : Db → Db
public_part db = record db {
  admin_pins = record db.admin_pins { rows = map without_pin db.admin_pins.rows };
  print_stations = record db.print_stations { rows = map without_key db.print_stations.rows };
  print_jobs = record db.print_jobs { rows = map without_payload db.print_jobs.rows };
  reservations = record db.reservations { rows = map without_source db.reservations.rows };
  unparsed_emails = record db.unparsed_emails { rows = map without_body db.unparsed_emails.rows };
  app_settings = [];
}

-- Sorting by the id commutes with a change that keeps it.
module _ {A : Type 0} (key_of : A → ℕ) (f : A → A) (keeps : (x : A) → key_of (f x) ≡ key_of x) where
  abbrev by_key : A → A → Bool
  by_key a b = leb (key_of a) (key_of b)

  insert_by-map :
      (x : A) (xs : List A) → insert_by by_key (f x) (map f xs) ≡ map f (insert_by by_key x xs)
  insert_by-map x [] = refl
  insert_by-map x (y ∷ ys) = elim (Bool-cases (by_key x y)) [
    | inl t ↦ rw (keeps x, keeps y, t) refl
    | inr g ↦ rw (keeps x, keeps y, g, insert_by-map x ys) refl
  ]

  order_by-map : (xs : List A) → order_by by_key (map f xs) ≡ map f (order_by by_key xs)
  unfolding order_by
  order_by-map [] = refl
  order_by-map (x ∷ xs) = rw (order_by-map xs) (insert_by-map x (order_by by_key xs))

  cells-map :
      (columns : Columns A)
      → ((x : A) → cells columns (f x) ≡ cells columns x)
      → (xs : List A) → map (cells columns) (map f xs) ≡ map (cells columns) xs
  cells-map columns same [] = refl
  cells-map columns same (x ∷ xs) = rw (same x, cells-map columns same xs) refl

  table_csv-map :
      (csv : List (List String) → String) (columns : Columns A)
      → ((x : A) → cells columns (f x) ≡ cells columns x)
      → (xs : List A) → table_csv csv columns key_of (map f xs) ≡ table_csv csv columns key_of xs
  unfolding table_csv
  table_csv-map csv columns same xs =
      ap (λ lines. csv (names columns ∷ lines))
        (ap (map (cells columns)) (order_by-map xs) ∙ cells-map columns same (order_by by_key xs))

room_lines-without_source :
    (rs : List Reservation) → all_room_lines (map without_source rs) ≡ all_room_lines rs
unfolding all_room_lines
room_lines-without_source [] = refl
room_lines-without_source (r ∷ rs) = rw (room_lines-without_source rs) refl

module _ (csv : List (List String) → String) (writer : Writer) (stamps : Stamps) where
  export_tables-public_part :
      (db : Db)
      → export_tables csv writer stamps (public_part db) ≡ export_tables csv writer stamps db
  unfolding export_tables public_part
  export_tables-public_part db =
      rw
        (
          table_csv-map (λ r. r.id) without_source (λ x. refl) csv _ (λ x. refl)
              db.reservations.rows,
          room_lines-without_source db.reservations.rows,
          table_csv-map (λ j. j.id) without_payload (λ x. refl) csv _ (λ x. refl)
              db.print_jobs.rows,
          table_csv-map (λ s. s.id) without_key (λ x. refl) csv _ (λ x. refl)
              db.print_stations.rows,
          table_csv-map (λ p. p.id) without_pin (λ x. refl) csv _ (λ x. refl) db.admin_pins.rows,
          table_csv-map (λ e. e.id) without_body (λ x. refl) csv _ (λ x. refl)
              db.unparsed_emails.rows,
        )
        refl

  -- Two databases that agree but for the hashes of PINs and station keys, the key prefixes, the
  -- settings, the print data and the raw emails give the same file for every table, and the same
  -- archive of all tables.
  pub export-secrets :
      (zip : List (String × String) → List ℕ) (db db' : Db)
      → public_part db ≡ public_part db'
      → ((slug : String)
          → export_table_csv csv writer stamps slug db
            ≡ export_table_csv csv writer stamps slug db')
        × (export_all_tables_zip csv writer stamps zip db
            ≡ export_all_tables_zip csv writer stamps zip db')
  unfolding export_table_csv export_all_tables_zip
  export-secrets zip db db' agree =
      let same : export_tables csv writer stamps db ≡ export_tables csv writer stamps db' =
        sym (export_tables-public_part db)
        ∙ ap (export_tables csv writer stamps) agree
        ∙ export_tables-public_part db' in
      (
        (λ slug. ap (table_by_slug csv writer stamps slug) same),
        ap (λ tables. zip (map (file_of csv writer stamps) tables)) same,
      )
