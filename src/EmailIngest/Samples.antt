-- ===== src/EmailIngest/Samples.antt =====
-- An environment without a mailbox, services that do as little as they can, and two parsers.
use resaprint.Base.{true, none, some, String, List, [], ◌∷◌, text_eq, if◌then◌else◌}
use resaprint.Models.{ParserMappingKind}
use resaprint.Database.{Outcome, returned, raised, parser_error}
use resaprint.Config.{Env}
use resaprint.PrintJobs.{unreachable}
use resaprint.EmailIngest.Registry.{ParsedReservation, ReservationParser}
use resaprint.EmailIngest.Create.{FetchedEmail}
use resaprint.EmailIngest.Process.{Services}

abbrev pub env : Env
env = record {
  imap_host = "";
  imap_port = 993;
  imap_user = "";
  imap_password = "";
  imap_folder = "INBOX";
  imap_processed_folder = "Processed";
  imap_poll_seconds = 60;
}

abbrev pub services : Services
services = record {
  encrypt = λ s. s;
  le = λ a b. true;
  encode = λ codepage text. [];
  formats = record {
    wrap = λ text width. text ∷ [];
    isoformat = λ d. "2026-01-01";
    show = λ n. "1";
    decimal = λ d. "1";
    average = λ d n. "1.00";
    upper = λ s. s;
    printed_at = "2026-01-01 00:00 UTC";
  };
  send = λ host port bytes. unreachable "no route to host";
  text_of = λ e. "failed";
  accepts = λ r. true;
  accepts_email = λ e. true;
  mark = λ mark uid. returned tt;
}

abbrev pub booking : ParsedReservation
booking = record {
  external_ref = some "R1";
  source_channel = "web";
  guest_name = "Ann";
  guest_email = none;
  guest_phone = none;
  checkin = 10;
  checkout = 12;
  room_type = none;
  guests_adults = 1;
  guests_children = 0;
  price_total = none;
  price_currency = "EUR";
  extra_fields = [];
  room_lines = [];
}

-- It reads emails whose body is "R1".
abbrev read : String → Outcome ParsedReservation
read body = if text_eq body "R1" then returned booking else raised (parser_error "no reference")

abbrev pub web : ReservationParser
web = record {
  slug = "web";
  kind = some ParserMappingKind.reservation;
  can_parse = λ subject body content_type. returned (text_eq subject "booking");
  parse = λ subject body content_type. read body;
}

abbrev pub web_cancel : ReservationParser
web_cancel = record {
  slug = "web_cancel";
  kind = some ParserMappingKind.cancellation;
  can_parse = λ subject body content_type. returned (text_eq subject "cancelled");
  parse = λ subject body content_type. read body;
}

abbrev pub registry : List ReservationParser
registry = web ∷ web_cancel ∷ []

abbrev pub email : String → String → String → FetchedEmail
email uid subject body = record {
  uid = uid;
  subject = subject;
  body = body;
  content_type = "text/plain";
}
