-- ===== src/Receipt/Banner.antt =====
-- The banner of a cancelled reservation.
use Prim.Native.String.{◌++◌ as append_text}
use mathlib.Core.List.{append_assoc}
use resaprint.Base.{ℕ, ◌≡◌, refl, ◌∙◌, ap, true, false, Option, String, List, ◌++◌}
use resaprint.Models.{Reservation, Room}
use resaprint.RoomAssignment.{is_cancelled}
use resaprint.Escpos.{
  Font, font_select, text_size, bold, align, center, left, encode_line, feed, cut, set_font,
  set_text_size, bold_line, align_center, align_left, line, feed_lines, cut_paper,
}
use resaprint.Receipt.Draw.{Receipt, Draw, ◌⨾◌, on_paper, note, rule_on_paper}
use resaprint.Receipt.Defs.{
  Formats, Layout, base_size, header, cancelled_banner, draw_top, draw_body, draw_bottom,
  draw_receipt,
}
use resaprint.Receipt.Appends.{
  Appends, Appends-then, Appends-note, Appends-rule_on_paper, Appends-emit,
}
use resaprint.Receipt.Body.{Appends-draw_body}

module _ (encode : String → String → List ℕ) (formats : Formats) (room_of : Option ℕ → Option Room)
    (width : ℕ) where
  -- The three parts of the receipt of a cancelled reservation around its two large lines.
  abbrev title_part : Layout → Font → Reservation → Draw
  title_part l font r =
      let size = base_size l.font_size in
      on_paper (set_font encode font)
      ⨾ on_paper (set_text_size encode size size)
      ⨾ on_paper (align_center encode)
      ⨾ on_paper (bold_line encode (header formats.upper l r))

  abbrev large_line : Draw
  large_line =
      on_paper (set_text_size encode 3 3) ⨾ on_paper (bold_line encode "*** PREKLICANO ***")

  abbrev middle_part : Layout → Reservation → Draw
  middle_part l r =
      let size = base_size l.font_size in
      on_paper (set_text_size encode size size)
      ⨾ rule_on_paper encode width
      ⨾ on_paper (align_left encode)
      ⨾ note (header formats.upper l r)
      ⨾ note "*** PREKLICANO ***"
      ⨾ draw_body encode formats room_of width l r
      ⨾ on_paper (align_center encode)

  abbrev last_part : Layout → Draw
  last_part l =
      let size = base_size l.font_size in
      on_paper (set_text_size encode size size)
      ⨾ on_paper (align_left encode)
      ⨾ note "*** PREKLICANO ***"
      ⨾ on_paper (line encode (append_text "Printed " formats.printed_at))
      ⨾ on_paper (feed_lines encode 3)
      ⨾ on_paper (cut_paper encode true)

  -- Large type, bold on, the text, bold off.
  abbrev pub large_bytes : String → List ℕ
  large_bytes codepage =
      text_size 3 3
      ++ (bold true ++ (encode_line encode "*** PREKLICANO ***" codepage ++ bold false))

  Appends-bold_line : (text : String) → Appends (on_paper (bold_line encode text))
  unfolding bold_line
  Appends-bold_line text = record {
    bytes = λ r.
        let b = r.builder in
        (
          bold true ++ (encode_line encode text b.codepage ++ bold false),
          append_assoc (b.buf ++ bold true) (encode_line encode text b.codepage) (bold false)
              ∙ append_assoc b.buf (bold true) (encode_line encode text b.codepage ++ bold false),
          refl,
        );
  }

  module _ (l : Layout) (font : Font) (r : Reservation) where
    Appends-title_part : Appends (title_part l font r)
    unfolding set_font set_text_size align_center
    Appends-title_part =
        let size = base_size l.font_size in
        Appends-then
          (Appends-then
            (Appends-then (Appends-emit encode width (λ b. font_select font))
              (Appends-emit encode width (λ b. text_size size size)))
            (Appends-emit encode width (λ b. align center)))
          (Appends-bold_line (header formats.upper l r))

    Appends-middle_part : Appends (middle_part l r)
    unfolding set_text_size align_center align_left
    Appends-middle_part =
        let size = base_size l.font_size in
        let top =
          Appends-then
            (Appends-then
              (Appends-then
                (Appends-then (Appends-emit encode width (λ b. text_size size size))
                  (Appends-rule_on_paper encode width))
                (Appends-emit encode width (λ b. align left)))
              (Appends-note (header formats.upper l r)))
            (Appends-note "*** PREKLICANO ***") in
        Appends-then (Appends-then top (Appends-draw_body encode formats room_of width l r))
          (Appends-emit encode width (λ b. align center))

    Appends-last_part : Appends (last_part l)
    unfolding set_text_size align_left line feed_lines cut_paper
    Appends-last_part =
        let size = base_size l.font_size in
        Appends-then
          (Appends-then
            (Appends-then
              (Appends-then
                (Appends-then (Appends-emit encode width (λ b. text_size size size))
                  (Appends-emit encode width (λ b. align left)))
                (Appends-note "*** PREKLICANO ***"))
              (Appends-emit encode width
                (λ b. encode_line encode (append_text "Printed " formats.printed_at) b.codepage)))
            (Appends-emit encode width (λ b. feed 3)))
          (Appends-emit encode width (λ b. cut true))

    large_line-bytes :
        (s : Receipt) → (large_line s).builder.buf ≡ s.builder.buf ++ large_bytes s.builder.codepage
    unfolding set_text_size bold_line
    large_line-bytes s =
        let b = s.builder in
        let text = encode_line encode "*** PREKLICANO ***" b.codepage in
        append_assoc (b.buf ++ text_size 3 3 ++ bold true) text (bold false)
        ∙ append_assoc (b.buf ++ text_size 3 3) (bold true) (text ++ bold false)
        ∙ append_assoc b.buf (text_size 3 3) (bold true ++ (text ++ bold false))

    large_line-codepage : (s : Receipt) → (large_line s).builder.codepage ≡ s.builder.codepage
    unfolding set_text_size bold_line
    large_line-codepage s = refl

    cancelled_receipt :
        is_cancelled r.status ≡ true
        → draw_receipt encode formats room_of width l font r
          ≡ title_part l font r ⨾ large_line ⨾ middle_part l r ⨾ large_line ⨾ last_part l
    unfolding draw_receipt draw_top draw_bottom cancelled_banner
    cancelled_receipt h = rw h refl

    -- The bytes of a cancelled reservation's receipt hold the large bold notice twice behind what
    -- was there, whatever the reservation and the layout are.
    pub draw_receipt-cancelled :
        (s : Receipt)
        → is_cancelled r.status ≡ true
        → (before between after : List ℕ) × ((draw_receipt encode formats room_of width l font r
              s).builder.buf
            ≡ s.builder.buf
              ++ before
              ++ large_bytes s.builder.codepage
              ++ between
              ++ large_bytes s.builder.codepage
              ++ after)
    draw_receipt-cancelled s h =
        let s1 = title_part l font r s in
        let s2 = large_line s1 in
        let s3 = middle_part l r s2 in
        let s4 = large_line s3 in
        let (before, e1, c1) = Appends-title_part.bytes s in
        let (between, e3, c3) = Appends-middle_part.bytes s2 in
        let (after, e5, c5) = Appends-last_part.bytes s4 in
        let e2 : s2.builder.buf ≡ s.builder.buf ++ before ++ large_bytes s.builder.codepage =
          large_line-bytes s1
          ∙ ap (λ xs. xs ++ large_bytes s1.builder.codepage) e1
          ∙ ap (λ c. s.builder.buf ++ before ++ large_bytes c) c1 in
        let c' : s3.builder.codepage ≡ s.builder.codepage = c3 ∙ large_line-codepage s1 ∙ c1 in
        let e4 : s4.builder.buf
            ≡ s.builder.buf
              ++ before
              ++ large_bytes s.builder.codepage
              ++ between
              ++ large_bytes s.builder.codepage =
          large_line-bytes s3
          ∙ ap (λ xs. xs ++ large_bytes s3.builder.codepage) (e3 ∙ ap (λ xs. xs ++ between) e2)
          ∙ ap
              (λ c.
                s.builder.buf
                ++ before
                ++ large_bytes s.builder.codepage
                ++ between
                ++ large_bytes c)
              c' in
        (
          before,
          between,
          after,
          ap (λ d. (d s).builder.buf) (cancelled_receipt h) ∙ e5 ∙ ap (λ xs. xs ++ after) e4,
        )
