-- ===== src/Escpos/Tests.antt =====
-- Bytes of small receipts.
use Prim.Native.String.{◌++◌ as append_text}
use resaprint.Base.{
  ◌≡◌, ◌<◌, refl, ℕ, true, false, String, List, [], ◌∷◌, max, ◌+◌, ◌/◌, ◌%◌, arith,
}
use resaprint.Text.{len}
use resaprint.Escpos.{
  size_byte, padded_value, repeat, new_builder, align_center, bold_line, kv_line, feed_lines,
  cut_paper, build, init, align, bold, cut, feed, encode_line,
}
use resaprint.Escpos.Layout.{len-kv_line, size_byte-unpack}

-- Every text becomes a single byte: its length.
abbrev encode : String → String → List ℕ
encode codepage text = len text ∷ []

builder_run : Unit {0}
unfolding len new_builder align_center bold_line kv_line feed_lines cut_paper init align bold cut
    feed encode_line repeat padded_value
builder_run = tt

receipt_bytes :
    build encode (
      cut_paper encode true
        (feed_lines encode 2 (bold_line encode "Hi" (new_builder encode "cp437" false))))
    ≡ 27 ∷ 64 ∷ 27 ∷ 69 ∷ 1 ∷ 2 ∷ 10 ∷ 27 ∷ 69 ∷ 0 ∷ 10 ∷ 10 ∷ 29 ∷ 86 ∷ 1 ∷ []
unfolding builder_run
receipt_bytes = refl

-- With bold labels the label and the rest are encoded separately, between the switches.
bold_kv_bytes :
    build encode (kv_line encode "Room" "12" 10 (new_builder encode "cp437" true))
    ≡ 27 ∷ 64 ∷ 27 ∷ 69 ∷ 1 ∷ 4 ∷ 27 ∷ 69 ∷ 0 ∷ 7 ∷ []
unfolding builder_run
bold_kv_bytes = refl

len-kv_line_example :
    len (append_text "Room" (padded_value 32 "Room" "12")) ≡ max 32 (len "Room" + len "12" + 1)
len-kv_line_example = len-kv_line 32 "Room" "12"

size_byte-unpack_example :
    (size_byte 2 3 < 256) × (size_byte 2 3 / 16 + 1 ≡ 2) × (size_byte 2 3 % 16 + 1 ≡ 3)
size_byte-unpack_example =
    size_byte-unpack 2 3 (omega arith) (omega arith) (omega arith) (omega arith)
