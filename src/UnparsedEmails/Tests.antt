-- ===== src/UnparsedEmails/Tests.antt =====
-- An email that a new profile reads, and one that it does not.
use resaprint.Base.{◌≡◌, refl, ◌⊎◌, true, false, Option, none, List, [], ◌∷◌, get}
use resaprint.Models.{UnparsedEmail, UnparsedEmailStatus, AdminPin, AdminRole}
use resaprint.Database.{Db, empty_db, returned, request}
use resaprint.EmailIngest.Samples.{env, services}
use resaprint.Parsers.Samples.{toy, inn}
use resaprint.UnparsedEmails.Actions.{reparse_unparsed_email_action, ignore_unparsed_email_action}
use resaprint.UnparsedEmails.Reparse.{IsSetAside, IsResolved, reparse_unparsed_email_action-outcome}

abbrev boss : AdminPin
boss = record {
  id = 1;
  label = "Boss";
  pin_hash = "1234";
  role = AdminRole.admin;
  is_active = true;
  failed_attempts = 0;
  locked_until = none;
  last_login_at = none;
}

abbrev booking_email : UnparsedEmail
booking_email = record {
  id = 1;
  subject = "Booking";
  body = "Ana";
  content_type = "text/plain";
  reason = "no matching parser";
  parser_slug = none;
  status = UnparsedEmailStatus.pending;
  resolved_reservation_id = none;
  created_at = 3;
  resolved_at = none;
}

abbrev waiting : Db
waiting = record empty_db {
  parser_field_mappings = record { rows = inn ∷ []; next_id = 2 };
  unparsed_emails = record { rows = booking_email ∷ []; next_id = 2 };
}

reparse_unparsed_email_action-outcome_example :
    let result = request (reparse_unparsed_email_action env services toy 9 boss 1 false) waiting in
    ((page : Option UnparsedEmail ⊎ List UnparsedEmail) × (result.0 ≡ returned page))
    × (IsSetAside env services toy 9 boss booking_email waiting result.1
        ⊎ IsResolved env services toy 9 boss booking_email waiting result.1)
unfolding get
reparse_unparsed_email_action-outcome_example =
    reparse_unparsed_email_action-outcome env services toy 9 boss booking_email false waiting refl

-- A resolved email cannot be ignored away.
ignore_resolved :
    (ignore_unparsed_email_action boss 1 (record {
      committed = empty_db;
      current = record waiting {
        unparsed_emails = record {
          rows = record booking_email { status = UnparsedEmailStatus.resolved } ∷ [];
          next_id = 2;
        };
      };
    })).1.current.unparsed_emails.rows
    ≡ record booking_email { status = UnparsedEmailStatus.resolved } ∷ []
unfolding ignore_unparsed_email_action get
ignore_resolved = refl
