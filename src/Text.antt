-- ===== src/Text.antt =====
-- Python's operations on texts that the code uses, on native texts.
use Prim.Native.Char.{Char, code}
use resaprint.Base.{
  ℕ, zero, suc, ◌≡◌, refl, Bool, true, false, ◌&&◌, ◌||◌, String, List, [], ◌∷◌, leb, ◌==◌,
  if◌then◌else◌, arith,
}

-- `len(s)` counts characters.
unfoldable pub len : String → ℕ
len String.[] = 0
len (String.◌∷◌ c s) = suc (len s)

-- `s[:n]`
unfoldable pub take_chars : ℕ → String → String
take_chars zero s = String.[]
take_chars (suc n) String.[] = String.[]
take_chars (suc n) (String.◌∷◌ c s) = String.◌∷◌ c (take_chars n s)

-- The characters that `str.isspace` accepts, and so the ones that `str.strip` removes.
abbrev pub is_space : Char → Bool
is_space c =
    let n = code c in
    (leb 9 n && leb n 13)
    || (leb 28 n && leb n 32)
    || n == 0x85
    || n == 0xa0
    || n == 0x1680
    || (leb 0x2000 n && leb n 0x200a)
    || n == 0x2028
    || n == 0x2029
    || n == 0x202f
    || n == 0x205f
    || n == 0x3000

unfoldable pub strip_left : String → String
strip_left String.[] = String.[]
strip_left (String.◌∷◌ c s) = let rest = strip_left s in if is_space c then rest else String.◌∷◌ c s

abbrev is_empty : String → Bool
is_empty String.[] = true
is_empty (String.◌∷◌ c s) = false

unfoldable pub strip_right : String → String
strip_right String.[] = String.[]
strip_right (String.◌∷◌ c s) =
    let rest = strip_right s in if is_empty rest && is_space c then String.[] else String.◌∷◌ c rest

-- `s.strip()`
unfoldable pub strip : String → String
unfolding strip_left strip_right
strip s = strip_left (strip_right s)

-- `s.split(" ", 1)[1]`, for a text with a space.
unfoldable pub after_space : String → String
after_space String.[] = String.[]
after_space (String.◌∷◌ c s) = let rest = after_space s in if code c == 32 then s else rest

-- No character is white space.
abbrev pub NoSpace : String → Type 0
NoSpace String.[] = Unit
NoSpace (String.◌∷◌ c s) = (is_space c ≡ false) × NoSpace s

strip_right-NoSpace : (s : String) → NoSpace s → strip_right s ≡ s
unfolding strip_right
strip_right-NoSpace String.[] h = refl
strip_right-NoSpace (String.◌∷◌ c s) h = rw (strip_right-NoSpace s h.1, h.0) (ground arith)

pub strip-NoSpace : (s : String) → NoSpace s → strip s ≡ s
unfolding strip
strip-NoSpace String.[] h = refl
strip-NoSpace (String.◌∷◌ c s) h = rw (strip_right-NoSpace (String.◌∷◌ c s) h, h.0)

-- The line boundaries of `str.splitlines`.
abbrev pub is_line_end : Char → Bool
is_line_end c =
    let n = code c in
    (leb 10 n && leb n 13) || (leb 28 n && leb n 30) || n == 0x85 || n == 0x2028 || n == 0x2029

abbrev add_char : Char → List String → List String
add_char c [] = String.◌∷◌ c String.[] ∷ []
add_char c (l ∷ ls) = String.◌∷◌ c l ∷ ls

-- Where the scan stands: before a line, in a line, or before a line behind a carriage return.
pub data Place : Type 0 where
  before inside after_return : Place

abbrev skips_feed : Place → Char → Bool
skips_feed after_return c = code c == 10
skips_feed _ c = false

split_from : Place → String → List String
split_from inside String.[] = String.[] ∷ []
split_from _ String.[] = []
split_from place (String.◌∷◌ c s) =
    let skipped = split_from before s in
    let closed = String.[] ∷ split_from (if code c == 13 then after_return else before) s in
    let continued = add_char c (split_from inside s) in
    if skips_feed place c then skipped else if is_line_end c then closed else continued

-- `s.splitlines()`
unfoldable pub splitlines : String → List String
unfolding split_from
splitlines s = split_from before s

splitlines-mixed : splitlines "a\r\n\nb\n" ≡ "a" ∷ "" ∷ "b" ∷ []
unfolding splitlines
splitlines-mixed = refl
