-- ===== src/Receipt/Draw.antt =====
-- The receipt under construction: the builder's bytes and the lines of the text summary.
use Prim.Native.String.{◌++◌ as append_text}
use resaprint.Base.{ℕ, Bool, true, false, String, Option, none, some, List, [], ◌∷◌, ◌++◌}
use resaprint.Escpos.{ReceiptBuilder, line, kv_line, repeat, divider}

pub record Receipt : Type 0 where
  pub builder : ReceiptBuilder
  pub text_lines : List String

abbrev pub Draw : Type 0
Draw = Receipt → Receipt

infixl 5 ◌⨾◌
abbrev pub ◌⨾◌ : Draw → Draw → Draw
(d ⨾ e) r = e (d r)

abbrev pub skip : Draw
skip r = r

abbrev pub draw_if : Bool → Draw → Draw
draw_if true d = d
draw_if false d = skip

-- A statement that is run for a value, if there is one.
abbrev pub draw_some : {A : Type 0} → Option A → (A → Draw) → Draw
draw_some none d = skip
draw_some (some a) d = d a

-- `for x in xs: d(x)`
unfoldable pub draw_each : {A : Type 0} → (A → Draw) → List A → Draw
draw_each d [] = skip
draw_each d (x ∷ xs) = d x ⨾ draw_each d xs

abbrev pub on_paper : (ReceiptBuilder → ReceiptBuilder) → Draw
on_paper f r = record r { builder = f r.builder }

-- `text_lines.append(text)`
abbrev pub note : String → Draw
note text r = record r { text_lines = r.text_lines ++ text ∷ [] }

module _ (encode : String → String → List ℕ) (width : ℕ) where
  unfoldable pub write : String → Draw
  unfolding line
  write text = on_paper (line encode text) ⨾ note text

  -- A label and its value, on paper and in the text.
  unfoldable pub entry : String → String → Draw
  unfolding kv_line
  entry label value =
      on_paper (kv_line encode label value width) ⨾ note (append_text label (append_text " " value))

  unfoldable pub rule : Draw
  unfolding divider repeat
  rule = on_paper (divider encode width "-") ⨾ note (repeat "-" width)

  unfoldable pub rule_on_paper : Draw
  unfolding divider
  rule_on_paper = on_paper (divider encode width "-")
