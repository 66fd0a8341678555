-- ===== src/Models/Values.antt =====
-- Values that columns hold: decimal prices (Python's `Decimal`) and the JSON of an audit entry.
use resaprint.Base.{ℕ, Bool, String}

-- `negsuc n` is -(n + 1).
pub data ℤ : Type 0 where
  pos : ℕ → ℤ
  negsuc : ℕ → ℤ

-- A finite decimal is (-1)^negative * digits * 10^exponent.
pub data Decimal : Type 0 where
  finite : (negative : Bool) (digits : ℕ) (exponent : ℤ) → Decimal
  infinity : (negative : Bool) → Decimal
  nan : Decimal

pub data Json : Type 0 where
  null : Json
  text : String → Json
  number : ℕ → Json
  flag : Bool → Json
  -- A date or a decimal, which JSON writes as a text.
  date : ℕ → Json
  decimal : Decimal → Json

-- A calendar date by its ordinal, `date.toordinal()`.
abbrev pub Date : Type 0
Date = ℕ

-- A point in time, in seconds.
abbrev pub Time : Type 0
Time = ℕ
