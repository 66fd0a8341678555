-- ===== src/Receipt/Body.antt =====
-- What the body of a receipt adds to the paper.
use Prim.Native.String.{◌++◌ as append_text}
use resaprint.Base.{ℕ, Option, none, some, String, List, [], ltb, truthy, ◌∷◌}
use resaprint.Models.{Reservation, RoomLine, Room, Decimal}
use resaprint.Receipt.Defs.{
  Formats, Layout, room_label, write_wrapped, write_line, write_room_type, write_rooms, summary,
  write_price, ref_or_dash, draw_body, nights_of, amount,
}
use resaprint.Receipt.Appends.{
  Appends, Appends-skip, Appends-then, Appends-if, Appends-some, Appends-each, Appends-write,
  Appends-rule, Appends-rule_on_paper, Appends-entry,
}

module _ (encode : String → String → List ℕ) (formats : Formats) (room_of : Option ℕ → Option Room)
    (width : ℕ) where
  Appends-write_wrapped :
      (label : String) (texts : List String)
      → Appends (write_wrapped encode formats room_of width label texts)
  unfolding write_wrapped
  Appends-write_wrapped label [] = Appends-write encode width label
  Appends-write_wrapped label (t ∷ ts) =
      Appends-then (Appends-write encode width t)
        (Appends-each ts (λ u. Appends-write encode width (append_text "  " u)))

  Appends-write_line :
      (r : Reservation) (l : RoomLine) → Appends (write_line encode formats room_of width r l)
  unfolding write_line
  Appends-write_line r l =
      let label = room_label l.room_type (room_of l.assigned_room_id) in
      Appends-then
        (Appends-then
          (Appends-then (Appends-write_wrapped label (formats.wrap label width))
            (Appends-some l.nights (λ n. Appends-entry encode width "  Nights:" (formats.show n))))
          (Appends-some l.price_per_night (λ p.
            Appends-entry encode width "  Per night:" (amount encode formats room_of width r p))))
        (Appends-some l.price_total (λ p.
          Appends-entry encode width "  Line total:" (amount encode formats room_of width r p)))

  Appends-write_room_type :
      (r : Reservation) (o : Option String)
      → Appends (write_room_type encode formats room_of width r o)
  unfolding write_room_type
  Appends-write_room_type r none = Appends-skip
  Appends-write_room_type r (some t) =
      let label = room_label t (room_of r.assigned_room_id) in
      Appends-if (truthy t) (
        Appends-then (Appends-write encode width "Sobe:")
          (Appends-write_wrapped label (formats.wrap label width)))

  Appends-write_rooms :
      (r : Reservation) (ls : List RoomLine)
      → Appends (write_rooms encode formats room_of width r ls)
  unfolding write_rooms
  Appends-write_rooms r [] = Appends-write_room_type r r.room_type
  Appends-write_rooms r (l ∷ ls) =
      Appends-then (Appends-write encode width "Sobe:")
        (Appends-each (l ∷ ls) (Appends-write_line r))

  Appends-write_price :
      (r : Reservation) (p : Decimal) → Appends (write_price encode formats room_of width r p)
  unfolding write_price
  Appends-write_price r p =
      let nights = nights_of encode formats room_of width r in
      Appends-then
        (Appends-then
          (Appends-entry encode width "SKUPAJ:" (amount encode formats room_of width r p))
          (Appends-if (ltb 0 nights) (
            Appends-entry encode width "Povp./noč:"
              (append_text r.price_currency (append_text " " (formats.average p nights))))))
        (Appends-rule encode width)

  pub Appends-draw_body :
      (l : Layout) (r : Reservation) → Appends (draw_body encode formats room_of width l r)
  unfolding draw_body
  Appends-draw_body l r =
      let entry_lem = Appends-entry encode width in
      let guest =
        Appends-then (entry_lem "Gost:" r.guest_name) (Appends-write_rooms r r.room_lines) in
      let dates =
        Appends-then (Appends-then guest (entry_lem "From:" (formats.isoformat r.checkin)))
          (entry_lem "To:" (formats.isoformat r.checkout)) in
      let counted =
        Appends-then
          (Appends-then dates
            (Appends-some (summary encode formats room_of width l r) (Appends-write encode width)))
          (Appends-rule encode width) in
      let priced =
        Appends-then counted (Appends-some r.price_total (λ p. Appends-write_price r p)) in
      Appends-then (Appends-then priced (entry_lem "Reservation nr.:" (ref_or_dash r.external_ref)))
        (Appends-rule_on_paper encode width)
