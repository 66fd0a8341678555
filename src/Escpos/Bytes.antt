-- ===== src/Escpos/Bytes.antt =====
-- The ESC/POS commands.
use resaprint.Base.{String, ℕ, zero, suc, ◌+◌, ◌*◌, ◌%◌, ◌++◌, Bool, true, false, List, [], ◌∷◌}

pub data Align : Type 0 where
  left center right : Align

pub data Font : Type 0 where
  font_a font_b : Font

abbrev pub esc : ℕ
esc = 0x1b

abbrev pub gs : ℕ
gs = 0x1d

abbrev pub align_code : Align → ℕ
align_code left = 0
align_code center = 1
align_code right = 2

abbrev pub font_code : Font → ℕ
font_code font_a = 0
font_code font_b = 1

abbrev pub one_byte : Bool → ℕ
one_byte true = 1
one_byte false = 0

unfoldable pub init : List ℕ
init = esc ∷ b'@' ∷ []

unfoldable pub align : Align → List ℕ
align mode = esc ∷ b'a' ∷ align_code mode ∷ []

unfoldable pub bold : Bool → List ℕ
bold on = esc ∷ b'E' ∷ one_byte on ∷ []

unfoldable pub font_select : Font → List ℕ
font_select mode = esc ∷ b'M' ∷ font_code mode ∷ []

-- `((width - 1) & 0x07) << 4 | ((height - 1) & 0x07)`; `(n - 1) & 7` is `(n + 7) % 8`, at 0 too,
-- and the two fields have no bit in common.
abbrev pub size_byte : ℕ → ℕ → ℕ
size_byte width height = (width + 7) % 8 * 16 + (height + 7) % 8

unfoldable pub text_size : ℕ → ℕ → List ℕ
text_size width height = gs ∷ b'!' ∷ size_byte width height ∷ []

unfoldable pub cut : Bool → List ℕ
cut partial = gs ∷ b'V' ∷ one_byte partial ∷ []

unfoldable pub feed : ℕ → List ℕ
feed zero = []
feed (suc n) = 10 ∷ feed n

unfoldable pub encode_line : (String → String → List ℕ) → String → String → List ℕ
encode_line encode text codepage = encode codepage text ++ 10 ∷ []
