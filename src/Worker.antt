-- ===== src/Worker.antt =====
-- What a poll of the mailbox reads of the settings, backend/app/services/email_ingest.py: the
-- connection, and the interval of the loop. The cipher (`decrypt`) may fail.
use resaprint.Base.{ℕ, ◌&&◌, Option, none, some, String, truthy, if◌then◌else◌, ◌==◌}
use resaprint.Models.{AppSettings}
use resaprint.Database.{Action, Outcome, returned, raised, pure, ◌>>=◌}
use resaprint.Config.{Env, get_or_create_settings}
use resaprint.EmailIngest.{Services, outcome}

pub record ImapConnectionInfo : Type 0 where
  pub host : String
  pub port : ℕ
  pub user : String
  pub password : String
  pub folder : String
  pub processed_folder : String

abbrev pub default_poll_seconds : ℕ
default_poll_seconds = 60

-- `row.imap_poll_seconds or DEFAULT_POLL_SECONDS`
abbrev pub seconds_or_default : ℕ → ℕ
seconds_or_default n = if n == 0 then default_poll_seconds else n

-- How long the loop sleeps.
abbrev pub interval_or_default : Outcome ℕ → ℕ
interval_or_default (returned n) = n
interval_or_default (raised e) = default_poll_seconds

module _ (env : Env) (services : Services) (decrypt : String → Outcome String) where
  unfoldable pub current_poll_interval_seconds : Action ℕ
  unfolding get_or_create_settings
  current_poll_interval_seconds = do
    row ← get_or_create_settings env services.encrypt
    pure (seconds_or_default row.imap_poll_seconds)

  abbrev pub connection_info : AppSettings → String → String → String → ImapConnectionInfo
  connection_info row host user password = record {
    host = host;
    port = row.imap_port;
    user = user;
    password = password;
    folder = row.imap_folder;
    processed_folder = row.imap_processed_folder;
  }

  abbrev pub connected : AppSettings → String → String → String → Action (Option ImapConnectionInfo)
  connected row host user encrypted = do
    password ← outcome (decrypt encrypted)
    pure (some (connection_info row host user password))

  abbrev pub connect :
      AppSettings
      → Option String
      → Option String
      → Option String
      → Action (Option ImapConnectionInfo)
  connect row (some host) (some user) (some encrypted) =
      if truthy host && (truthy user && truthy encrypted)
      then connected row host user encrypted
      else pure none
  connect row _ _ _ = pure none

  unfoldable pub load_imap_connection_info : Action (Option ImapConnectionInfo)
  unfolding get_or_create_settings
  load_imap_connection_info = do
    row ← get_or_create_settings env services.encrypt
    connect row row.imap_host row.imap_user row.imap_password_encrypted
