-- ===== src/Escpos/Layout.antt =====
-- The layout of a line with a label and a value, and the packing of the text size.
use Prim.Native.String.{◌++◌ as append_text}
use Prim.Native.String.append
use resaprint.Base.{ℕ, zero, suc, ◌+◌, ◌/◌, ◌%◌, ◌≤◌, ◌<◌, max, ◌≡◌, refl, String, arith}
use resaprint.Text.{len}
use resaprint.Escpos.Bytes.{size_byte}
use resaprint.Escpos.Builder.{repeat, gap, padded_value}

pub len-append : (s t : String) → len (append_text s t) ≡ len s + len t
unfolding len
len-append String.[] t = rw append.nil (omega arith)
len-append (String.◌∷◌ c s) t = rw append.cons (omega (arith, len-append s t))

len-repeat : (s : String) (n : ℕ) → len s ≡ 1 → len (repeat s n) ≡ n
unfolding repeat len
len-repeat s zero h = refl
len-repeat s (suc n) h = rw (len-append s (repeat s n), h, len-repeat s n h) (omega arith)

len-space : len " " ≡ 1
unfolding len
len-space = refl

-- A label, its gap and its value are as long as the paper is wide, or, if they do not fit, as long
-- as both with a single space.
pub len-kv_line :
    (width : ℕ) (label value : String)
    → len (append_text label (padded_value width label value))
      ≡ max width (len label + len value + 1)
unfolding padded_value
len-kv_line width label value =
    rw
      (
        len-append label (append_text (repeat " " (gap width label value)) value),
        len-append (repeat " " (gap width label value)) value,
        len-repeat " " (gap width label value) len-space,
      )
      (omega arith)

-- Sizes from 1 to 8 are packed into one byte, from which both are read back.
pub size_byte-unpack :
    (width height : ℕ)
    → 1 ≤ width
    → width ≤ 8
    → 1 ≤ height
    → height ≤ 8
    → (size_byte width height < 256)
      × (size_byte width height / 16 + 1 ≡ width)
      × (size_byte width height % 16 + 1 ≡ height)
size_byte-unpack width height a b c d = omega arith
