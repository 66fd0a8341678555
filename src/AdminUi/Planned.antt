-- ===== src/AdminUi/Planned.antt =====
-- The forms that create a reservation, and the stored reservations.
use resaprint.Base.{ℕ, ◌≡◌, refl, inl, inr, Option, none, some, String, [], ◌∷◌}
use resaprint.Base.Lemmas.{get-In}
use resaprint.Models.{Reservation, Room, AdminPin, Date, Decimal, Time, Json}
use resaprint.Database.{Db, Holds, Holds-pure, Holds-commit, Holds-then, request}
use resaprint.Config.{Env}
use resaprint.RoomAssignment.Occupied.{Occupies}
use resaprint.EmailIngest.{Services, get_room}
use resaprint.Reservations.{manual_reservation}
use resaprint.Reservations.Planned.{IsPlanned, IsFreeFor, add-IsPlanned}
use resaprint.Reservations.Created.{Planned, created-Planned, log-Planned}
use resaprint.AdminUi.Booking.{
  ReservationForm, form_payload, create_reservation_action, WalkinForm, next_walkin_ref,
  walkin_reservation, create_walkin_action,
}

module _ (decimal : String → Option Decimal) where
  pub create_reservation_action-Planned :
      (env : Env) (services : Services) (now : Time) (admin : AdminPin) (form : ReservationForm)
      → Holds Planned
          (λ _. Unit {0})
          (create_reservation_action decimal env services.encrypt services.le now admin form)
  unfolding create_reservation_action
  create_reservation_action-Planned env services now admin form =
      created-Planned env services now (manual_reservation now (form_payload decimal form)) _
        (λ id. refl) (λ id. record { own = refl; lines = tt })
        (λ r assigned.
          Holds-then
            (log-Planned admin.label "reservation.created_manual" (some "reservation") (some r.id)
              (some (("source_channel", Json.text r.source_channel) ∷ [])))
            (Holds-then Holds-commit (Holds-pure r.id tt)))

  module _ (ddmmyy : Date → String) (two_digits : ℕ → String) where
    walkin-IsFreeFor :
        (now : Time) (today : Date) (form : WalkinForm) (ref : String) (id : ℕ) (db : Db)
        (room : Option Room)
        → get_room db (some form.room_id) ≡ room
        → ((s : Reservation) → ¬ Occupies db today form.checkout none form.room_id s)
        → IsFreeFor
            (walkin_reservation decimal ddmmyy two_digits now today form room ref id)
            db.reservations.rows
    unfolding walkin_reservation
    walkin-IsFreeFor now today form ref id db none e free = record {
      distinct = tt;
      untaken = λ s m active o j h. elim h [ ];
    }
    walkin-IsFreeFor now today form ref id db (some room) e free = record {
      distinct = ((λ n. elim n [ ]), tt);
      untaken = λ s m active o j h held. elim h [
        | inl same ↦
            let (_, own) = get-In (λ r. r.id) form.room_id room db.rooms.rows e in
            free s (m, active, o, refl, rw (← own, ← same) held)
        | inr n ↦ elim n [ ]
      ];
    }

    -- A walk-in that gets a free room keeps the reservations planned.
    pub create_walkin_action-IsPlanned :
        (now : Time) (today : Date) (admin : AdminPin) (form : WalkinForm) (db : Db)
        → ((s : Reservation) → ¬ Occupies db today form.checkout none form.room_id s)
        → IsPlanned db.reservations
        → IsPlanned
            (request
              (create_walkin_action decimal ddmmyy two_digits now today admin form)
              db).1.reservations
    unfolding request create_walkin_action
    create_walkin_action-IsPlanned now today admin form db free h =
        add-IsPlanned
          (walkin_reservation decimal ddmmyy two_digits now today form
            (get_room db (some form.room_id)) (next_walkin_ref decimal ddmmyy two_digits today db))
          db.reservations
          (walkin-IsFreeFor now today form (next_walkin_ref decimal ddmmyy two_digits today db)
            db.reservations.next_id db (get_room db (some form.room_id)) refl free)
          refl h
