-- ===== src/Users/Tests.antt =====
-- Requests on a table of users with one admin.
use resaprint.Base.{◌≡◌, refl, inl, true, none, List, [], ◌∷◌, arith, get, select}
use resaprint.Models.{AdminPin, AdminRole}
use resaprint.Database.{Db, raised, http_error, empty_db, request}
use resaprint.Patch.{unset, value}
use resaprint.Users.{UserUpdate, update_user}
use resaprint.Users.Admins.{HasAdmin}
use resaprint.Users.History.{
  Request, update, toggle_form, delete, script, serve_all, serve_all-HasAdmin,
}

abbrev boss : AdminPin
boss = record {
  id = 1;
  label = "Boss";
  pin_hash = "1234";
  role = AdminRole.admin;
  is_active = true;
  failed_attempts = 0;
  locked_until = none;
  last_login_at = none;
}

abbrev office : Db
office = record empty_db { admin_pins = record { rows = boss ∷ []; next_id = 2 } }

abbrev demote : UserUpdate
demote = record { label = unset; role = value AdminRole.reception; is_active = unset; pin = unset }

demote-last :
    (request (update_user (λ pin. pin) boss 1 demote) office).0
    ≡ raised (http_error 400 "cannot demote/deactivate the last active admin user")
unfolding request update_user get select
demote-last = refl

office-HasAdmin : HasAdmin office
office-HasAdmin = record {
  fresh = omega arith;
  unique = λ p q mp mq e. ground arith;
  admin = boss;
  listed = inl refl;
  active = (refl, refl);
}

abbrev requests : List Request
requests = update boss 1 demote ∷ toggle_form boss 1 ∷ delete boss 1 ∷ script "Boss" "4321" ∷ []

serve_all-HasAdmin_example : HasAdmin (serve_all (λ pin. pin) requests office)
serve_all-HasAdmin_example = serve_all-HasAdmin (λ pin. pin) requests office office-HasAdmin
