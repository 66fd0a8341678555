-- ===== src/CsvExport/Tests.antt =====
-- Two databases that differ in a hash.
use resaprint.Base.{◌≡◌, refl, true, none, String, List, [], ◌∷◌, ℕ, length}
use resaprint.Models.{AdminPin, AdminRole}
use resaprint.Database.{Db, empty_db}
use resaprint.CsvExport.Tables.{Writer, Stamps}
use resaprint.CsvExport.Export.{
  export_table_csv, export_all_tables_zip, export_tables, table_by_slug,
}
use resaprint.CsvExport.Secrets.{public_part, export-secrets}

abbrev boss : String → AdminPin
boss pin_hash = record {
  id = 1;
  label = "Boss";
  pin_hash = pin_hash;
  role = AdminRole.admin;
  is_active = true;
  failed_attempts = 0;
  locked_until = none;
  last_login_at = none;
}

abbrev with_hash : String → Db
with_hash pin_hash = record empty_db {
  admin_pins = record { rows = boss pin_hash ∷ []; next_id = 2 };
}

abbrev writer : Writer
writer = record {
  number = λ n. "1";
  flag = λ b. "True";
  date = λ d. "2026-01-01";
  time = λ t. "2026-01-01 00:00:00";
  decimal = λ d. "1.00";
  dumps = λ d. "{}";
}

abbrev stamps : Stamps
stamps = record { created_at = λ table id. "then"; updated_at = λ table id. "now" }

-- The text of a file is its first cell, and an archive the number of its files.
abbrev first_cell : List (List String) → String
first_cell ((c ∷ cs) ∷ ls) = c
first_cell ls = ""

abbrev zip : List (String × String) → List ℕ
zip files = length files ∷ []

unknown_slug : export_table_csv first_cell writer stamps "parser_mappings" empty_db ≡ none
unfolding export_table_csv export_tables table_by_slug
unknown_slug = refl

export-secrets_example :
    ((slug : String)
      → export_table_csv first_cell writer stamps slug (with_hash "a")
        ≡ export_table_csv first_cell writer stamps slug (with_hash "b"))
    × (export_all_tables_zip first_cell writer stamps zip (with_hash "a")
        ≡ export_all_tables_zip first_cell writer stamps zip (with_hash "b"))
unfolding public_part
export-secrets_example =
    export-secrets first_cell writer stamps zip (with_hash "a") (with_hash "b") refl
