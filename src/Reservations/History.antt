-- ===== src/Reservations/History.antt =====
-- Sequences of requests on reservations, on unparsed emails and on rooms, and of emails.
use resaprint.Base.{ℕ, Bool, Option, none, String, List, [], ◌∷◌}
use resaprint.Models.{Reservation, AdminPin, Date, Decimal, Time}
use resaprint.RoomAssignment.Occupied.{Occupies}
use resaprint.AdminUi.{ReservationForm, WalkinForm, create_reservation_action, create_walkin_action}
use resaprint.AdminUi.Planned.{create_reservation_action-Planned, create_walkin_action-IsPlanned}
use resaprint.Database.{Db, request, Holds-request}
use resaprint.Config.{Env}
use resaprint.EmailIngest.{ReservationParser, FetchedEmail, Services, process_email}
use resaprint.Parsers.{Engine}
use resaprint.UnparsedEmails.{reparse_unparsed_email_action}
use resaprint.Rooms.{delete_room as delete_room_by}
use resaprint.Rooms.Planned.{delete_room-Planned}
use resaprint.Reservations.Routes.{ReservationCreate, create_reservation, cancel_reservation}
use resaprint.Reservations.Rooms.{reassign_room, delete_reservation_action}
use resaprint.Reservations.Planned.{IsPlanned}
use resaprint.Reservations.Created.{create_reservation-Planned}
use resaprint.Reservations.Consistency.{
  cancel_reservation-Planned, reassign_room-Planned, delete_reservation-Planned,
}
use resaprint.Reservations.Ingested.{process_email-Planned}
use resaprint.Reservations.Reparsed.{reparse_unparsed_email-Planned}

-- One request, behind its guards, or one email.
pub data Request : Type 0 where
  create : Time → AdminPin → ReservationCreate → Request
  create_form : Time → AdminPin → ReservationForm → Request
  -- The day of the walk-in follows the time.
  walkin : Time → Date → AdminPin → WalkinForm → Request
  cancel : AdminPin → ℕ → Request
  reassign : AdminPin → ℕ → Request
  delete : AdminPin → ℕ → Request
  -- The email's id, and whether the request came from its page.
  reparse : Time → AdminPin → ℕ → Bool → Request
  delete_room : AdminPin → ℕ → Request
  -- An email, with the parsers of that time.
  receive : Time → List ReservationParser → FetchedEmail → Request

module _ (env : Env) (services : Services) (engine : Engine) (decimal : String → Option Decimal)
    (ddmmyy : Date → String) (two_digits : ℕ → String) where
  unfoldable pub serve : Request → Db → Db
  unfolding request
  serve (create now admin payload) db =
      (request (create_reservation env services.encrypt services.le now admin payload) db).1
  serve (create_form now admin form) db =
      (request (create_reservation_action decimal env services.encrypt services.le now admin form)
        db).1
  serve (walkin now today admin form) db =
      (request (create_walkin_action decimal ddmmyy two_digits now today admin form) db).1
  serve (cancel admin k) db = (request (cancel_reservation admin k) db).1
  serve (reassign admin k) db = (request (reassign_room services.le admin k) db).1
  serve (delete admin k) db = (request (delete_reservation_action admin k) db).1
  serve (reparse now admin k from_detail) db =
      (request (reparse_unparsed_email_action env services engine now admin k from_detail) db).1
  serve (delete_room admin k) db = (request (delete_room_by admin k) db).1
  serve (receive now registry fetched) db =
      (request (process_email env services now registry fetched) db).1

  unfoldable pub serve_all : List Request → Db → Db
  unfolding serve
  serve_all [] db = db
  serve_all (r ∷ rs) db = serve_all rs (serve r db)

  -- A walk-in gets a room that no active stay holds on a night of its own. Nothing else is asked.
  abbrev pub IsFitting : Request → Db → Type 0
  IsFitting (walkin now today admin form) db =
      (s : Reservation) → ¬ Occupies db today form.checkout none form.room_id s
  IsFitting _ db = Unit

  abbrev pub AllFitting : List Request → Db → Type 0
  AllFitting [] db = Unit
  AllFitting (r ∷ rs) db = IsFitting r db × AllFitting rs (serve r db)

  serve-IsPlanned :
      (r : Request) (db : Db)
      → IsFitting r db
      → IsPlanned db.reservations
      → IsPlanned (serve r db).reservations
  unfolding serve
  serve-IsPlanned (create_form now admin form) db f h =
      Holds-request
        (create_reservation_action decimal env services.encrypt services.le now admin form) db
        (create_reservation_action-Planned decimal env services now admin form) h
  serve-IsPlanned (walkin now today admin form) db f h =
      create_walkin_action-IsPlanned decimal ddmmyy two_digits now today admin form db f h
  serve-IsPlanned (create now admin payload) db f h =
      Holds-request (create_reservation env services.encrypt services.le now admin payload) db
        (create_reservation-Planned env services now admin payload) h
  serve-IsPlanned (cancel admin k) db f h =
      Holds-request (cancel_reservation admin k) db (cancel_reservation-Planned admin k) h
  serve-IsPlanned (reassign admin k) db f h =
      Holds-request (reassign_room services.le admin k) db
        (reassign_room-Planned services.le admin k) h
  serve-IsPlanned (delete admin k) db f h =
      Holds-request (delete_reservation_action admin k) db (delete_reservation-Planned admin k) h
  serve-IsPlanned (reparse now admin k from_detail) db f h =
      Holds-request (reparse_unparsed_email_action env services engine now admin k from_detail) db
        (reparse_unparsed_email-Planned env services engine now admin k from_detail) h
  serve-IsPlanned (delete_room admin k) db f h =
      Holds-request (delete_room_by admin k) db (delete_room-Planned admin k) h
  serve-IsPlanned (receive now registry fetched) db f h =
      Holds-request (process_email env services now registry fetched) db
        (process_email-Planned env services now registry fetched) h

  -- If the ids of the reservations are below the sequence's next number, no two active ones that
  -- share a night share a room, and none holds a room twice, then the same holds after any sequence
  -- of emails and of requests that create a reservation, by the route or by the form, enter a
  -- walk-in, cancel, reassign or delete a reservation, parse a stored email again or delete a room,
  -- if each walk-in gets a room that no active stay then holds on a night of its own. The settings
  -- may assign rooms automatically or not. The rooms, dates and states that are set by hand are not
  -- among the requests.
  pub serve_all-IsPlanned :
      (rs : List Request) (db : Db)
      → AllFitting rs db
      → IsPlanned db.reservations
      → IsPlanned (serve_all rs db).reservations
  unfolding serve_all
  serve_all-IsPlanned [] db f h = h
  serve_all-IsPlanned (r ∷ rs) db (f, fs) h =
      serve_all-IsPlanned rs (serve r db) fs (serve-IsPlanned r db f h)
