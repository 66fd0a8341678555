-- ===== src/Escpos/Builder.antt =====
-- `ReceiptBuilder`: each method returns the builder with more bytes behind its buffer.
use Prim.Native.String.{◌++◌ as append_text}
use resaprint.Base.{ℕ, zero, suc, ◌-◌, max, ◌++◌, Bool, true, false, List, String, if◌then◌else◌}
use resaprint.Text.{len}
use resaprint.Escpos.Bytes.{
  left, center, right, Font, init, align, bold, font_select, text_size, cut, feed, encode_line,
}

pub record ReceiptBuilder : Type 0 where
  pub codepage : String
  pub bold_labels : Bool
  pub buf : List ℕ

-- `s * n`
unfoldable pub repeat : String → ℕ → String
repeat s zero = ""
repeat s (suc n) = append_text s (repeat s n)

-- The number of spaces between a label and its value: at least one.
abbrev pub gap : ℕ → String → String → ℕ
gap width label value = max 1 (width - len label - len value)

-- `{' ' * gap}{value}`
unfoldable pub padded_value : ℕ → String → String → String
unfolding repeat
padded_value width label value = append_text (repeat " " (gap width label value)) value

module _ (encode : String → String → List ℕ) where
  abbrev pub emit : List ℕ → ReceiptBuilder → ReceiptBuilder
  emit bytes b = record b { buf = b.buf ++ bytes }

  unfoldable pub new_builder : String → Bool → ReceiptBuilder
  unfolding init
  new_builder codepage bold_labels = record {
    codepage = codepage;
    bold_labels = bold_labels;
    buf = init;
  }

  unfoldable pub align_left : ReceiptBuilder → ReceiptBuilder
  unfolding align
  align_left b = emit (align left) b

  unfoldable pub align_center : ReceiptBuilder → ReceiptBuilder
  unfolding align
  align_center b = emit (align center) b

  unfoldable pub align_right : ReceiptBuilder → ReceiptBuilder
  unfolding align
  align_right b = emit (align right) b

  unfoldable pub set_font : Font → ReceiptBuilder → ReceiptBuilder
  unfolding font_select
  set_font mode b = emit (font_select mode) b

  unfoldable pub set_text_size : ℕ → ℕ → ReceiptBuilder → ReceiptBuilder
  unfolding text_size
  set_text_size width height b = emit (text_size width height) b

  unfoldable pub line : String → ReceiptBuilder → ReceiptBuilder
  unfolding encode_line
  line text b = emit (encode_line encode text b.codepage) b

  unfoldable pub bold_line : String → ReceiptBuilder → ReceiptBuilder
  unfolding bold encode_line
  bold_line text b =
      emit (bold false) (emit (encode_line encode text b.codepage) (emit (bold true) b))

  unfoldable pub kv_line : String → String → ℕ → ReceiptBuilder → ReceiptBuilder
  unfolding bold encode_line padded_value
  kv_line label value width b =
      if b.bold_labels
      then emit (encode b.codepage (append_text (padded_value width label value) "\n"))
          (emit (bold false) (emit (encode b.codepage label) (emit (bold true) b)))
      else emit (encode_line encode (append_text label (padded_value width label value)) b.codepage)
          b

  unfoldable pub divider : ℕ → String → ReceiptBuilder → ReceiptBuilder
  unfolding encode_line repeat
  divider width char b = emit (encode_line encode (repeat char width) b.codepage) b

  unfoldable pub feed_lines : ℕ → ReceiptBuilder → ReceiptBuilder
  unfolding feed
  feed_lines n b = emit (feed n) b

  unfoldable pub cut_paper : Bool → ReceiptBuilder → ReceiptBuilder
  unfolding cut
  cut_paper partial b = emit (cut partial) b

  abbrev pub build : ReceiptBuilder → List ℕ
  build b = b.buf
