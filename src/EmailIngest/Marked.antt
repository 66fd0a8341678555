-- ===== src/EmailIngest/Marked.antt =====
-- What becomes of every email.
use resaprint.Base.{ℕ, ◌≡◌, refl, Bool, true, false, Option, none, some, String}
use resaprint.Models.{AppSettings, PrintStation, Time}
use resaprint.Database.{
  Outcome, returned, pure, Returns, Returns-pure, Returns-bind, Returns-gets, Returns-if,
  Returns-try,
}
use resaprint.Config.{Env, get_or_create_settings}
use resaprint.Config.Singleton.{get_or_create_settings-idempotent}
use resaprint.PrintJobs.{get_station}
use resaprint.EmailIngest.Create.{FetchedEmail, outcome, unparsed_row}
use resaprint.EmailIngest.Process.{
  Mark, Services, maybe_auto_print, auto_print, auto_print_at, auto_print_if,
}

pub Returns-outcome : {A : Type 0} (r : Outcome A) (a : A) → r ≡ returned a → Returns (outcome r)
Returns-outcome r a e = record { result = λ s. (a, e) }

module _ (services : Services) (now : Time) (fetched : FetchedEmail) where
  -- The database takes the row of the email, whatever its reason.
  abbrev pub CanKeep : Type 0
  CanKeep =
      (reason : String) (slug : Option String) (id : ℕ)
      → services.accepts_email (unparsed_row now fetched reason slug id) ≡ true

  -- The server takes the marks of the email.
  abbrev pub CanMark : Type 0
  CanMark = (mark : Mark) → services.mark mark fetched.uid ≡ returned tt

module _ (env : Env) (services : Services) (now : Time) where
  pub Returns-get_or_create_settings : Returns (get_or_create_settings env services.encrypt)
  Returns-get_or_create_settings = record {
    result = λ s.
        let (row, e, _) = get_or_create_settings-idempotent env services.encrypt env s in (row, e);
  }

  Returns-auto_print_at :
      (settings : AppSettings) (k : ℕ) (station : Option PrintStation)
      → Returns (auto_print_at env services now settings k station)
  Returns-auto_print_at settings k none = record { result = λ s. (tt, refl) }
  Returns-auto_print_at settings k (some station) =
      Returns-if station.is_active
        (Returns-try (auto_print env services now settings station k) (λ e. pure tt)
          (λ e. Returns-pure tt))
        (record { result = λ s. (tt, refl) })

  Returns-auto_print_if :
      (settings : AppSettings) (k : ℕ) (on : Bool) (station : Option ℕ)
      → Returns (auto_print_if env services now settings k on station)
  Returns-auto_print_if settings k true (some j) =
      Returns-bind (Returns-gets (get_station j)) (Returns-auto_print_at settings k)
  Returns-auto_print_if settings k true none = Returns-pure tt
  Returns-auto_print_if settings k false (some j) = Returns-pure tt
  Returns-auto_print_if settings k false none = Returns-pure tt

  pub Returns-maybe_auto_print : (k : ℕ) → Returns (maybe_auto_print env services now k)
  unfolding maybe_auto_print
  Returns-maybe_auto_print k =
      Returns-bind Returns-get_or_create_settings
        (λ row. Returns-auto_print_if row k row.auto_print_enabled row.auto_print_station_id)
