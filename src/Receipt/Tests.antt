-- ===== src/Receipt/Tests.antt =====
-- The receipts of a small reservation.
use resaprint.Base.{ℕ, ◌≡◌, refl, false, Option, none, some, String, List, [], ◌∷◌, ◌++◌}
use resaprint.Models.{Reservation, ReservationStatus, Room}
use resaprint.Text.{len}
use resaprint.Escpos.{font_a}
use resaprint.Receipt.{Formats, layout, Receipt, draw_receipt}
use resaprint.Receipt.Banner.{large_bytes, draw_receipt-cancelled}

-- Every text becomes a single byte: its length.
abbrev encode : String → String → List ℕ
encode codepage text = len text ∷ []

abbrev formats : Formats
formats = record {
  wrap = λ text width. text ∷ [];
  isoformat = λ d. "2026-01-01";
  show = λ n. "1";
  decimal = λ d. "1";
  average = λ d n. "1.00";
  upper = λ s. s;
  printed_at = "2026-01-01 00:00 UTC";
}

abbrev rooms : Option ℕ → Option Room
rooms k = none

abbrev stay : ReservationStatus → Reservation
stay status = record {
  id = 1;
  external_ref = none;
  source_channel = "manual";
  parser_slug = none;
  guest_name = "Ann";
  guest_email = none;
  guest_phone = none;
  checkin = 10;
  checkout = 12;
  room_type = some "Double";
  guests_adults = 2;
  guests_children = 0;
  price_total = none;
  price_currency = "EUR";
  status = status;
  raw_source_text = none;
  extra_fields = none;
  assigned_room_id = none;
  created_at = 0;
  room_lines = [];
}

abbrev empty_receipt : Receipt
empty_receipt = record {
  builder = record { codepage = "cp858"; bold_labels = false; buf = 27 ∷ 64 ∷ [] };
  text_lines = [];
}

draw_receipt-cancelled_example :
    (before between after : List ℕ) × ((draw_receipt encode formats rooms 32
        (layout none)
        font_a
        (stay ReservationStatus.cancelled)
        empty_receipt).builder.buf
      ≡ 27 ∷ 64 ∷ []
        ++ before
        ++ large_bytes encode formats rooms 32 "cp858"
        ++ between
        ++ large_bytes encode formats rooms 32 "cp858"
        ++ after)
draw_receipt-cancelled_example =
    draw_receipt-cancelled encode formats rooms 32 (layout none) font_a
      (stay ReservationStatus.cancelled) empty_receipt refl
