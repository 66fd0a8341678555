-- ===== src/Audit.antt =====
-- backend/app/services/audit.py: the entries that handlers leave.
use resaprint.Base.{ℕ, Option, none, some, String, List}
use resaprint.Models.{AuditLog, Json}
use resaprint.Database.{Action, modify, table_add}

abbrev pub Detail : Type 0
Detail = Option (List (String × Json))

abbrev pub audit_entry : String → String → Option String → Option ℕ → Detail → ℕ → AuditLog
audit_entry actor action entity_type entity_id detail id = record {
  id = id;
  actor = actor;
  action = action;
  entity_type = entity_type;
  entity_id = entity_id;
  detail = detail;
}

-- `audit.log`
abbrev pub log : String → String → Option String → Option ℕ → Detail → Action (Unit {0})
log actor action entity_type entity_id detail = modify (λ db. record db {
  audit_log = table_add (audit_entry actor action entity_type entity_id detail) db.audit_log;
})

-- An entry about a row, without a detail.
abbrev pub log_row : String → String → String → ℕ → Action (Unit {0})
log_row actor action entity_type id = log actor action (some entity_type) (some id) none
