-- ===== src/Parsers/Trial.antt =====
-- The two trials of a profile on an email.
use resaprint.Base.{◌≡◌, refl, ℕ, Bool, true, false, none, some, String}
use resaprint.Models.{ParserFieldMapping}
use resaprint.Database.{
  Session, Outcome, returned, raised, http_error, not_authenticated_html, forbidden_html,
  integrity_error, multiple_results_found, parser_error, other_error,
}
use resaprint.EmailIngest.{ParsedReservation}
use resaprint.Parsers.Libraries.{Engine}
use resaprint.Parsers.Generic.{can_parse, parse}
use resaprint.Parsers.Routes.{ParserTestResult, get_mapping, test_parser, test_result}
use resaprint.Parsers.Pages.{test_parser_action, shown_result}

module _ (engine : Engine) where
  -- The result that the page shows where the route raises: the exception's text.
  abbrev pub shown : Outcome ParserTestResult → Outcome ParserTestResult
  shown (returned r) = returned r
  shown (raised e) =
      returned (record { matched = true; parsed = none; error = some (engine.text_of e) })

  shown-test_result :
      (r : Outcome ParsedReservation) → shown_result engine r ≡ shown (test_result r)
  shown-test_result (returned parsed) = refl
  shown-test_result (raised (http_error status detail)) = refl
  shown-test_result (raised not_authenticated_html) = refl
  shown-test_result (raised forbidden_html) = refl
  shown-test_result (raised integrity_error) = refl
  shown-test_result (raised multiple_results_found) = refl
  shown-test_result (raised (parser_error message)) = refl
  shown-test_result (raised (other_error message)) = refl

  -- On a profile that is stored and whose test of the subject gives an answer, the page's trial
  -- never raises: it shows what the route's trial returns, and the text of the exception where that
  -- raises; neither changes the database.
  pub test_parser_action-agrees :
      (k : ℕ) (subject body : String) (s : Session) (mapping : ParserFieldMapping) (matched : Bool)
      → get_mapping k s.current ≡ some mapping
      → can_parse engine mapping subject ≡ returned matched
      → ((test_parser_action engine k subject body s)
          ≡ (shown (test_parser engine k subject body s).0, s))
        × ((test_parser engine k subject body s).1 ≡ s)
  unfolding test_parser test_parser_action
  test_parser_action-agrees k subject body s mapping true found matches =
      rw (found, matches, shown-test_result (parse engine mapping body)) (refl, refl)
  test_parser_action-agrees k subject body s mapping false found matches =
      rw (found, matches) (refl, refl)
