-- ===== src/Auth/Routes.antt =====
-- backend/app/routers/auth.py: logging in and out. The parameter `dumps` signs the token of an id.
use resaprint.Base.{ℕ, Bool, Option, none, some, String, truthy?, if◌then◌else◌}
use resaprint.Models.{AdminPin, Time}
use resaprint.Database.{Action, http_error, pure, raise, ◌>>=◌}
use resaprint.Auth.Defs.{Settings, attempt_login}
use resaprint.Auth.Guards.{require_admin_session}

-- What the browser gets: a fragment of a page for HTMX, the label as JSON, or another address, and
-- what becomes of the session cookie. The flags of the cookie, which no code reads, are left out.
pub data Body : Type 0 where
  html : String → Body
  label_of : String → Body
  redirect : String → Body

pub data Cookie : Type 0 where
  kept_cookie : Cookie
  set_cookie : (token : String) (max_age : ℕ) → Cookie
  delete_cookie : Cookie

pub record Response : Type 0 where
  pub body : Body
  pub cookie : Cookie

module _ (config : Settings) (verify : String → String → Bool) (dumps : ℕ → String) (max_age : ℕ)
    (now : Time) where
  abbrev pub login_body : Bool → AdminPin → Body
  login_body hx_request admin_pin = if hx_request then html "" else label_of admin_pin.label

  abbrev pub answer_login : Bool → Option AdminPin → Action Response
  answer_login hx_request (some admin_pin) = pure (record {
    body = login_body hx_request admin_pin;
    cookie = set_cookie (dumps admin_pin.id) max_age;
  })
  answer_login hx_request none =
      if hx_request
      then pure (record {
        body = html "<span class=\"error-text\">Invalid PIN</span>";
        cookie = kept_cookie;
      })
      else raise (http_error 401 "invalid PIN")

  unfoldable pub login : String → Option String → Action Response
  unfolding attempt_login
  login pin hx_request = attempt_login config verify now pin >>= answer_login (truthy? hx_request)

unfoldable pub logout : (String → Option (Option ℕ)) → Option String → Action Response
unfolding require_admin_session
logout loads session = require_admin_session loads session >>= λ admin.
    pure (record { body = redirect "/login"; cookie = delete_cookie })
