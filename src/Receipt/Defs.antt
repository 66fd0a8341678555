-- ===== src/Receipt/Defs.antt =====
-- The parts of the receipt, in their order. `Formats` stands for what Python formats: wrapped
-- texts, dates, numbers, decimals, upper case and the time of printing.
use Prim.Native.String.{◌++◌ as append_text}
use resaprint.Base.{
  ℕ, ◌+◌, ◌-◌, Bool, true, false, ◌&&◌, Option, none, some, String, List, [], ◌∷◌, ltb, text_eq,
  truthy, if◌then◌else◌,
}
use resaprint.Models.{AppSettings, Reservation, RoomLine, Room, PrintStation, Date, Decimal}
use resaprint.Database.{Outcome, returned, raised, other_error}
use resaprint.RoomAssignment.{is_cancelled}
use resaprint.Escpos.{
  Font, font_a, font_b, new_builder, set_font, set_text_size, align_center, align_left, bold_line,
  line, feed_lines, cut_paper, build,
}
use resaprint.Receipt.Draw.{
  Receipt, Draw, ◌⨾◌, skip, draw_if, draw_some, draw_each, on_paper, note, write, entry, rule,
  rule_on_paper,
}

pub record Formats : Type 0 where
  pub wrap : String → ℕ → List String
  pub isoformat : Date → String
  pub show : ℕ → String
  pub decimal : Decimal → String
  pub average : Decimal → ℕ → String
  pub upper : String → String
  pub printed_at : String

-- `"\n".join(lines)`
unfoldable pub join_lines : List String → String
join_lines [] = ""
join_lines (text ∷ []) = text
join_lines (text ∷ next ∷ texts) = append_text text (append_text "\n" (join_lines (next ∷ texts)))

-- The layout settings, with the defaults of a call without settings.
pub record Layout : Type 0 where
  pub font : String
  pub font_size : String
  pub bold_labels : Bool
  pub show_nights : Bool
  pub show_guests : Bool
  pub show_channel : Bool

abbrev pub layout : Option AppSettings → Layout
layout none = record {
  font = "font_a";
  font_size = "normal";
  bold_labels = false;
  show_nights = true;
  show_guests = true;
  show_channel = true;
}
layout (some s) = record {
  font = s.receipt_font;
  font_size = s.receipt_font_size;
  bold_labels = s.receipt_bold_labels;
  show_nights = s.receipt_show_nights;
  show_guests = s.receipt_show_guests;
  show_channel = s.receipt_show_channel;
}

-- `_FONT_CODES[mode]` raises a KeyError for any other text.
abbrev pub font_of : String → Option Font
font_of s =
    if text_eq s "font_a" then some font_a else if text_eq s "font_b" then some font_b else none

abbrev pub base_size : String → ℕ
base_size s = if text_eq s "large" then 2 else if text_eq s "xlarge" then 3 else 1

abbrev pub room_label : String → Option Room → String
room_label room_type none = room_type
room_label room_type (some room) =
    append_text room_type (append_text " (Soba " (append_text room.room_number ")"))

abbrev pub header : (String → String) → Layout → Reservation → String
header upper l r =
    append_text
      (if l.show_channel
        then append_text (upper r.source_channel) " REZERVACIJA"
        else "REZERVACIJA")
      (if is_cancelled r.status then " — PREKLICANO" else "")

abbrev pub ref_or_dash : Option String → String
ref_or_dash none = "-"
ref_or_dash (some ref) = if truthy ref then ref else "-"

module _ (encode : String → String → List ℕ) (formats : Formats) (room_of : Option ℕ → Option Room)
    (width : ℕ) where
  -- `_cancelled_banner`
  unfoldable pub cancelled_banner : ℕ → Draw
  unfolding set_text_size bold_line
  cancelled_banner size =
      on_paper (set_text_size encode 3 3)
      ⨾ on_paper (bold_line encode "*** PREKLICANO ***")
      ⨾ on_paper (set_text_size encode size size)

  abbrev pub continued : String → Draw
  continued cont = write encode width (append_text "  " cont)

  -- `_wrap` falls back on the text where nothing is left to wrap.
  unfoldable pub write_wrapped : String → List String → Draw
  unfolding write draw_each
  write_wrapped label [] = write encode width label
  write_wrapped label (first_line ∷ conts) =
      write encode width first_line ⨾ draw_each continued conts

  abbrev pub amount : Reservation → Decimal → String
  amount r price = append_text r.price_currency (append_text " " (formats.decimal price))

  unfoldable pub write_line : Reservation → RoomLine → Draw
  unfolding write_wrapped entry
  write_line r l =
      let label = room_label l.room_type (room_of l.assigned_room_id) in
      write_wrapped label (formats.wrap label width)
      ⨾ draw_some l.nights (λ n. entry encode width "  Nights:" (formats.show n))
      ⨾ draw_some l.price_per_night (λ p. entry encode width "  Per night:" (amount r p))
      ⨾ draw_some l.price_total (λ p. entry encode width "  Line total:" (amount r p))

  unfoldable pub write_room_type : Reservation → Option String → Draw
  unfolding write write_wrapped
  write_room_type r none = skip
  write_room_type r (some room_type) =
      let label = room_label room_type (room_of r.assigned_room_id) in
      draw_if (truthy room_type)
        (write encode width "Sobe:" ⨾ write_wrapped label (formats.wrap label width))

  unfoldable pub write_rooms : Reservation → List RoomLine → Draw
  unfolding write write_line write_room_type draw_each
  write_rooms r [] = write_room_type r r.room_type
  write_rooms r (l ∷ ls) = write encode width "Sobe:" ⨾ draw_each (write_line r) (l ∷ ls)

  -- `max((checkout - checkin).days, 0)`
  abbrev pub nights_of : Reservation → ℕ
  nights_of r = r.checkout - r.checkin

  abbrev pub summary : Layout → Reservation → Option String
  summary l r =
      let guests = append_text "GOSTI: " (formats.show (r.guests_adults + r.guests_children)) in
      let nights = append_text "NOČI: " (formats.show (nights_of r)) in
      if l.show_guests && l.show_nights
      then some (append_text guests (append_text "  |  " nights))
      else if l.show_guests
      then some guests
      else if l.show_nights
      then some nights
      else none

  unfoldable pub write_price : Reservation → Decimal → Draw
  unfolding entry rule
  write_price r price =
      entry encode width "SKUPAJ:" (amount r price)
      ⨾ draw_if (ltb 0 (nights_of r)) (
          entry encode width "Povp./noč:"
            (append_text r.price_currency (append_text " " (formats.average price (nights_of r)))))
      ⨾ rule encode width

  -- The top: title, banner, and the first rule.
  unfoldable pub draw_top : Layout → Font → Reservation → Draw
  unfolding set_font set_text_size align_center align_left bold_line cancelled_banner rule_on_paper
  draw_top l font r =
      let size = base_size l.font_size in
      let title = header formats.upper l r in
      on_paper (set_font encode font)
      ⨾ on_paper (set_text_size encode size size)
      ⨾ on_paper (align_center encode)
      ⨾ on_paper (bold_line encode title)
      ⨾ draw_if (is_cancelled r.status) (cancelled_banner size)
      ⨾ rule_on_paper encode width
      ⨾ on_paper (align_left encode)
      ⨾ note title
      ⨾ draw_if (is_cancelled r.status) (note "*** PREKLICANO ***")

  unfoldable pub draw_body : Layout → Reservation → Draw
  unfolding entry write rule write_rooms write_price rule_on_paper
  draw_body l r =
      entry encode width "Gost:" r.guest_name
      ⨾ write_rooms r r.room_lines
      ⨾ entry encode width "From:" (formats.isoformat r.checkin)
      ⨾ entry encode width "To:" (formats.isoformat r.checkout)
      ⨾ draw_some (summary l r) (write encode width)
      ⨾ rule encode width
      ⨾ draw_some r.price_total (write_price r)
      ⨾ entry encode width "Reservation nr.:" (ref_or_dash r.external_ref)
      ⨾ rule_on_paper encode width

  unfoldable pub draw_bottom : Layout → Reservation → Draw
  unfolding align_center align_left cancelled_banner line feed_lines cut_paper
  draw_bottom l r =
      draw_if (is_cancelled r.status) (
        on_paper (align_center encode)
        ⨾ cancelled_banner (base_size l.font_size)
        ⨾ on_paper (align_left encode)
        ⨾ note "*** PREKLICANO ***")
      ⨾ on_paper (line encode (append_text "Printed " formats.printed_at))
      ⨾ on_paper (feed_lines encode 3)
      ⨾ on_paper (cut_paper encode true)

  unfoldable pub draw_receipt : Layout → Font → Reservation → Draw
  unfolding draw_top draw_body draw_bottom
  draw_receipt l font r = draw_top l font r ⨾ draw_body l r ⨾ draw_bottom l r

module _ (encode : String → String → List ℕ) (formats : Formats)
    (room_of : Option ℕ → Option Room) where
  abbrev pub new_receipt : PrintStation → Layout → Receipt
  new_receipt station l = record {
    builder = new_builder encode station.codepage l.bold_labels;
    text_lines = [];
  }

  abbrev pub finished : Receipt → String × List ℕ
  finished r = (append_text (join_lines r.text_lines) "\n", build encode r.builder)

  unfoldable pub build_reservation_receipt :
      Reservation → PrintStation → Option AppSettings → Outcome (String × List ℕ)
  unfolding join_lines new_builder draw_receipt
  build_reservation_receipt r station app_settings =
      let l = layout app_settings in
      elim (font_of l.font) [
        | none ↦ raised (other_error "KeyError")
        | some font ↦ returned (
            finished (
              draw_receipt encode formats room_of station.paper_width_cols l font r
                (new_receipt station l)))
      ]
