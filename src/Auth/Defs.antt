-- ===== src/Auth/Defs.antt =====
-- The settings of the process and the login. bcrypt is the parameter `verify`; one `now` stands
-- for the clock during a call.
use resaprint.Base.{
  ℕ, ◌+◌, ◌*◌, Bool, false, not, ◌&&◌, Option, none, some, String, List, [], ◌∷◌, map, ltb, leb,
  ◌==◌, if◌then◌else◌, select, update,
}
use resaprint.Models.{AdminPin, Time}
use resaprint.Database.{Db, Action, pure, gets, modify, commit, ◌>>=◌, ◌>>◌}
use resaprint.Audit.{log}

-- `Settings` of backend/app/config.py: the values that the services read.
pub record Settings : Type 0 where
  pub session_max_age_seconds : ℕ
  pub pin_lockout_threshold : ℕ
  pub pin_lockout_minutes : ℕ
  pub imap_host : String
  pub imap_port : ℕ
  pub imap_user : String
  pub imap_password : String
  pub imap_folder : String
  pub imap_processed_folder : String
  pub imap_poll_seconds : ℕ

abbrev pub default_settings : Settings
default_settings = record {
  session_max_age_seconds = 12 * 60 * 60;
  pin_lockout_threshold = 5;
  pin_lockout_minutes = 15;
  imap_host = "";
  imap_port = 993;
  imap_user = "";
  imap_password = "";
  imap_folder = "INBOX";
  imap_processed_folder = "Processed";
  imap_poll_seconds = 60;
}

abbrev pub is_locked : Time → AdminPin → Bool
is_locked now p = elim p.locked_until [ none ↦ false | some t ↦ ltb now t ]

-- The row after one more failed attempt, and whether that locks it.
abbrev pub reaches_threshold : Settings → AdminPin → Bool
reaches_threshold config p = leb config.pin_lockout_threshold (p.failed_attempts + 1)

unfoldable pub penalize : Settings → Time → AdminPin → AdminPin
penalize config now p =
    if reaches_threshold config p
    then record p {
      failed_attempts = 0;
      locked_until = some (now + 60 * config.pin_lockout_minutes);
    }
    else record p { failed_attempts = p.failed_attempts + 1 }

-- The second loop of `attempt_login` on one row: inactive rows are no candidates.
abbrev pub is_tested : Time → AdminPin → Bool
is_tested now p = p.is_active && not (is_locked now p)

unfoldable pub after_failure : Settings → Time → AdminPin → AdminPin
unfolding penalize
after_failure config now p = if is_tested now p then penalize config now p else p

-- The entries that the loop logs.
unfoldable pub log_locked_out : Settings → Time → List AdminPin → Action (Unit {0})
log_locked_out config now [] = pure tt
log_locked_out config now (p ∷ ps) =
    let rest = log_locked_out config now ps in
    if is_tested now p && reaches_threshold config p
    then log p.label "pin.locked_out" none none none >> rest
    else rest

abbrev pub after_success : Time → AdminPin → AdminPin
after_success now p = record p {
  failed_attempts = 0;
  locked_until = none;
  last_login_at = some now;
}

module _ (config : Settings) (verify : String → String → Bool) (now : Time) where
  -- The match so far, and the rows that `verify_pin` was called for.
  abbrev pub Comparisons : Type 0
  Comparisons = Option AdminPin × List AdminPin

  -- One call of `verify_pin`: it is recorded, and where it fits the loop breaks.
  abbrev pub compare : String → AdminPin → Comparisons → Comparisons
  compare pin p rest = if verify pin p.pin_hash then (some p, p ∷ []) else (rest.0, p ∷ rest.1)

  -- The first loop: the first unlocked candidate that the PIN fits.
  unfoldable pub find_match : String → List AdminPin → Comparisons
  find_match pin [] = (none, [])
  find_match pin (p ∷ ps) =
      let rest = find_match pin ps in if is_locked now p then rest else compare pin p rest

  unfoldable pub succeed : AdminPin → Action (Option AdminPin)
  unfolding update
  succeed p = do
    modify (λ db. record db {
      admin_pins = record db.admin_pins {
        rows = update (λ q. q.id) p.id (after_success now) db.admin_pins.rows;
      };
    })
    log p.label "pin.login_success" none none none
    commit
    pure (some (after_success now p))

  unfoldable pub fail : List AdminPin → Action (Option AdminPin)
  unfolding after_failure log_locked_out
  fail candidates = do
    modify (λ db. record db {
      admin_pins = record db.admin_pins {
        rows = map (after_failure config now) db.admin_pins.rows;
      };
    })
    log_locked_out config now candidates
    log "unknown" "pin.login_failed" none none none
    commit
    pure none

  unfoldable pub finish_login : List AdminPin → Option AdminPin → Action (Option AdminPin)
  finish_login candidates (some p) = succeed p
  finish_login candidates none = fail candidates

  unfoldable pub attempt_login : String → Action (Option AdminPin)
  attempt_login pin = do
    candidates ← gets (λ db. select (λ p. p.is_active) db.admin_pins.rows)
    finish_login candidates (find_match pin candidates).0

-- `get_admin_pin`, and the query of the session guards.
unfoldable pub active_pins_with_id : ℕ → Db → List AdminPin
unfolding select
active_pins_with_id k db = select (λ p. p.id == k && p.is_active) db.admin_pins.rows
