-- ===== src/Parsers/Libraries.antt =====
-- What the parsers take from Python's libraries: `re`, lxml, `strptime`, `Decimal`, `int`, pydantic,
-- and `repr` and `str`.
use resaprint.Base.{ℕ, Bool, Option, none, some, String, List, text_eq, if◌then◌else◌}
use resaprint.Models.{Date, Decimal}
use resaprint.Database.{Outcome, Exception}
use resaprint.EmailIngest.{RoomLineDto, ParsedReservation}

-- `match.group(i)` may raise, and is `None` for a group that took no part in the match.
pub record Match : Type 0 where
  pub group : ℕ → Outcome (Option String)

-- An element of a result of `tree.xpath`: its `text`, if it has that attribute, and its `str`.
pub record Node : Type 0 where
  pub text : Option (Option String)
  pub shown : String

-- XPath gives a list of nodes, a text, or a number or truth value with its own truth.
pub data XPathResult : Type 0 where
  nodes : List Node → XPathResult
  string : String → XPathResult
  scalar : Bool → XPathResult

-- A value of the dictionary that `parse` fills.
pub data Value : Type 0 where
  text : String → Value
  day : Date → Value
  amount : Decimal → Value

-- A dictionary, by what `get` finds.
abbrev pub Values : Type 0
Values = String → Option Value

abbrev pub no_values : Values
no_values name = none

abbrev pub set_value : String → Value → Values → Values
set_value key v values name = if text_eq name key then some v else values name

pub record Engine : Type 0 where
  -- `re.search(pattern, text)`, and with a flag; a bad pattern raises.
  pub search : String → String → Outcome (Option Match)
  pub search_ignorecase : String → String → Outcome (Option Match)
  pub search_multiline : String → String → Outcome (Option Match)
  -- `re.finditer(pattern, text, re.MULTILINE)`: each match by `groupdict().get`.
  pub find_all : String → String → Outcome (List (String → Option String))
  -- `etree.HTML(body)` and `tree.xpath(pattern)`: nothing where there is no tree.
  pub xpath : String → String → Outcome (Option XPathResult)
  -- `datetime.strptime(text, format).date()`, with the text of the `ValueError` otherwise.
  pub strptime : String → String → Outcome Date
  -- `Decimal(text)`, nothing where it raises `InvalidOperation`.
  pub decimal : String → Option Decimal
  -- `int(text)` for the numbers that are not negative.
  pub int : String → Option ℕ
  pub upper : String → String
  pub lower : String → String
  pub replace : String → String → String → String
  pub repr : String → String
  pub text_of : Exception → String
  -- `model_validate`: the coercions and checks of pydantic.
  pub validate_line : RoomLineDto → Outcome RoomLineDto
  pub validate : Values → List RoomLineDto → Outcome ParsedReservation
