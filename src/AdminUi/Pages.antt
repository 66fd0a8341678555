-- ===== src/AdminUi/Pages.antt =====
-- The queries of the pages. `like q text` is the database's ILIKE of a text with `%q%`, and `le` its
-- order of texts.
use resaprint.Base.{
  ℕ, Bool, ◌&&◌, ◌||◌, not, Option, none, some, String, List, select, order_by, leb, text_eq,
  truthy, ◌==◌, if◌then◌else◌,
}
use resaprint.Models.{Reservation, ReservationStatus, PrintJob, PrintStation, Date, UnparsedEmail}
use resaprint.Database.{Db, Action, gets, ◌>>=◌}
use resaprint.Config.{Env, ConfigOut, get_or_create_settings, config_out_from_row}
use resaprint.PrintJobs.{passes}
use resaprint.EmailIngest.{get_reservation}
use resaprint.Reservations.{matches, same_status}
use resaprint.UnparsedEmails.{take, list_unparsed, get_unparsed}
use resaprint.AdminUi.Sheet.{active_stations}

abbrev pub newest_job_first : PrintJob → PrintJob → Bool
newest_job_first a b = leb b.created_at a.created_at

-- The newest jobs, at most `n`.
unfoldable pub newest_jobs : ℕ → Db → List PrintJob
unfolding order_by
newest_jobs n db = take n (order_by newest_job_first db.print_jobs.rows)

unfoldable pub print_jobs_page : Db → List PrintJob
unfolding newest_jobs
print_jobs_page db = newest_jobs 200 db

pub record Dashboard : Type 0 where
  pub todays_arrivals : List Reservation
  pub print_jobs : List PrintJob
  pub stations : List PrintStation

module _ (le : String → String → Bool) where
  unfoldable pub dashboard : Date → Db → Dashboard
  unfolding newest_jobs select order_by
  dashboard today db = record {
    todays_arrivals =
        order_by (λ a b. le a.guest_name b.guest_name)
          (select (λ r. r.checkin == today) db.reservations.rows);
    print_jobs = newest_jobs 20 db;
    stations = order_by (λ a b. le a.name b.name) db.print_stations.rows;
  }

  -- `_reservation_detail_context`
  unfoldable pub reservation_detail_context : ℕ → Db → Option Reservation × List PrintStation
  unfolding active_stations
  reservation_detail_context reservation_id db =
      (get_reservation reservation_id db, active_stations le db)

  unfoldable pub settings_page : Env → (String → String) → Action (ConfigOut × List PrintStation)
  unfolding get_or_create_settings active_stations
  settings_page env encrypt = do
    row ← get_or_create_settings env encrypt
    gets (λ db. (config_out_from_row row, active_stations le db))

abbrev pub status_of : String → Option ReservationStatus
status_of status =
    if text_eq status "pending"
    then some ReservationStatus.pending
    else if text_eq status "confirmed"
    then some ReservationStatus.confirmed
    else if text_eq status "cancelled"
    then some ReservationStatus.cancelled
    else if text_eq status "manual"
    then some ReservationStatus.manual
    else none

pub record Filters : Type 0 where
  pub q : String
  pub status : String
  pub source_channel : String
  pub checkin_from : Option Date
  pub checkin_to : Option Date

-- A reservation that the filters of the list let through.
abbrev pub shows : (String → String → Bool) → Filters → Reservation → Bool
shows like filters r =
    matches like (some filters.q) r
    && (passes (status_of filters.status) (same_status r.status)
        && ((not (truthy filters.source_channel) || like filters.source_channel r.source_channel)
            && (passes filters.checkin_from (λ d. leb d r.checkin)
                && passes filters.checkin_to (λ d. leb r.checkin d))))

unfoldable pub reservations_page : (String → String → Bool) → Filters → Db → List Reservation
unfolding select order_by
reservations_page like filters db =
    order_by (λ a b. leb b.created_at a.created_at)
      (select (shows like filters) db.reservations.rows)

unfoldable pub unparsed_emails_page : Bool → Db → List UnparsedEmail
unfolding list_unparsed
unparsed_emails_page show_resolved db = list_unparsed show_resolved db

abbrev pub unparsed_email_detail_page : ℕ → Db → Option UnparsedEmail
unparsed_email_detail_page unparsed_id db = get_unparsed unparsed_id db
