-- ===== src/Reservations/Created.antt =====
-- Creating a reservation and assigning its rooms, step by step: the settings may be created and
-- committed in between.
use resaprint.Base.{
  ℕ, Bool-cases, ◌≡◌, refl, subst, Bool, true, false, Option, none, some, String, List, [], ◌∷◌, In,
  All, suc, inl, inr,
}
use resaprint.Models.{Reservation, ReservationStatus, AdminPin, AppSettings, Time}
use resaprint.Database.{
  Db, Session, Action, Outcome, returned, raised, and_then, Holds, Post, Holds-pure, Holds-modify,
  Holds-commit, Holds-then, Holds-Frames, Frames, ◌>>=◌,
}
use resaprint.Audit.{Detail, log}
use resaprint.RoomAssignment.{assign_rooms_for_reservation}
use resaprint.RoomAssignment.Assignment.{IsUnassigned, assign_rooms-IsAssignment}
use resaprint.Config.{Env, get_or_create_settings}
use resaprint.EmailIngest.{
  RoomLineDto, ParsedReservation, Services, add_reservation, assign_if_enabled,
  create_reservation_from_parsed, new_reservation, number_lines,
}
use resaprint.UnparsedEmails.Frames.{settings-Leaves}
use resaprint.Reservations.Routes.{ReservationCreate, manual_reservation, create_reservation}
use resaprint.Reservations.Planned.{
  IsPlanned, add-IsPlanned, add-only, put-IsPlanned, unassigned-IsFreeFor,
}

abbrev pub Planned : Db → Type 0
Planned db = IsPlanned db.reservations

-- A step that leaves the reservations alone leaves them planned.
pub Planned-Frames :
    {A : Type 0} (m : Action A) → Frames (λ db. db.reservations) m → Holds Planned (λ _. Unit {0}) m
Planned-Frames m p = Holds-Frames {view = λ db. db.reservations} IsPlanned m p

pub log-Planned :
    (actor action : String) (entity_type : Option String) (entity_id : Option ℕ) (detail : Detail)
    → Holds Planned (λ _. Unit {0}) (log actor action entity_type entity_id detail)
log-Planned actor action entity_type entity_id detail = Holds-modify _ (λ db h. h)

-- What `Holds` says of one session.
abbrev After : {A : Type 0} → Action A → Session → Type 0
After m s = Planned (m s).1.committed × Planned (m s).1.current × Post (λ _. Unit {0}) (m s).0

After-bind :
    {A B : Type 0} (m : Action A) (f : A → Action B) (s : Session)
    → After m s
    → ((a : A) → Holds Planned (λ _. Unit {0}) (f a))
    → After (m >>= f) s
After-bind {A = A} m f s h p = next (m s).0 (m s).1 h.0 h.1
  where
    next :
        (o : Outcome A) (t : Session)
        → Planned t.committed
        → Planned t.current
        → After (λ _. and_then o f t) t
    next (returned a) t h k = (p a).after t h k
    next (raised e) t h k = (h, k, tt)

-- The reservation is the stored one with its id, and has no room.
record IsNew (r : Reservation) (s : Session) : Type 0 where
  committed : Planned s.committed
  current : Planned s.current
  unassigned : IsUnassigned r
  only : (x : Reservation) → In x s.current.reservations.rows → x.id ≡ r.id → x ≡ r

add-IsNew :
    (row : ℕ → Reservation) (s : Session)
    → ((id : ℕ) → (row id).id ≡ id)
    → ((id : ℕ) → IsUnassigned (row id))
    → Planned s.committed
    → Planned s.current
    → IsNew (row s.current.reservations.next_id) (add_reservation row s).1
add-IsNew row s same u h k =
    let t = s.current.reservations in
    record {
      committed = h;
      current =
          add-IsPlanned row t (unassigned-IsFreeFor (row t.next_id) t.rows (u t.next_id))
            (same t.next_id) k;
      unassigned = u t.next_id;
      only = add-only row t (same t.next_id) k;
    }

module _ (env : Env) (services : Services) (now : Time) where
  settings-After :
      {A : Type 0} (f : AppSettings → Action A) (r : Reservation) (s : Session)
      → ((a : AppSettings) (t : Session) → IsNew r t → After (f a) t)
      → IsNew r s
      → After (get_or_create_settings env services.encrypt >>= f) s
  settings-After {A = A} f r s p new =
      let settings = get_or_create_settings env services.encrypt in
      let leaves = settings-Leaves (λ db. db.reservations) (λ _ _ _ e. e) env services now in
      let (h, k, _) = (Planned-Frames settings leaves).after s new.committed new.current in
      next (settings s).0 (settings s).1 (record {
        committed = h;
        current = k;
        unassigned = new.unassigned;
        only = λ x m e. new.only x (subst (λ t. In x t.rows) (leaves.keeps s).0 m) e;
      })
    where
      next : (o : Outcome AppSettings) (t : Session) → IsNew r t → After (λ _. and_then o f t) t
      next (returned a) t new = p a t new
      next (raised e) t new = (new.committed, new.current, tt)

  assign-After :
      (on : Bool) (r : Reservation) (s : Session)
      → IsNew r s
      → After (assign_if_enabled env services.encrypt services.le now on r) s
  assign-After false r s new = (new.committed, new.current, tt)
  assign-After true r s new =
      let a = assign_rooms-IsAssignment services.le s.current r new.unassigned in
      let assigned = assign_rooms_for_reservation services.le s.current r in
      (
        new.committed,
        put-IsPlanned s.current r.id (λ _. assigned) (λ x m e. rw (new.only x m e) a)
            (λ x e. a.same_id) new.current,
        tt,
      )

  numbered-Unassigned :
      (id index : ℕ) (ls : List RoomLineDto)
      → All (λ l. l.assigned_room_id ≡ none) (number_lines id index ls)
  unfolding number_lines
  numbered-Unassigned id index [] = tt
  numbered-Unassigned id index (l ∷ ls) = (refl, numbered-Unassigned (suc id) (suc index) ls)

  pub create_reservation_from_parsed-Planned :
      (parsed : ParsedReservation) (slug body : String) (status : ReservationStatus)
      → Holds Planned
          (λ _. Unit {0})
          (create_reservation_from_parsed env services.encrypt services.le services.accepts now
            parsed slug body status)
  unfolding create_reservation_from_parsed new_reservation
  create_reservation_from_parsed-Planned parsed slug body status = record {
    after = λ s h k.
        let row = new_reservation now parsed slug body status s.current.next_room_line_id in
        let r = row s.current.reservations.next_id in
        let new =
          add-IsNew row s (λ id. refl)
            (λ id. record { own = refl; lines = numbered-Unassigned _ _ parsed.room_lines }) h k in
        elim (Bool-cases (services.accepts r)) [
          | inl taken ↦ rw taken (
              settings-After
                (λ a.
                  assign_if_enabled env services.encrypt services.le now a.room_auto_assign_enabled
                    r)
                r (add_reservation row s).1 (λ a t. assign-After a.room_auto_assign_enabled r t)
                new)
          | inr not_taken ↦ rw not_taken (new.committed, new.current, tt)
        ];
  }

  -- A row without rooms is added, its rooms are assigned, and `rest` follows.
  pub created-Planned :
      {A : Type 0} (row : ℕ → Reservation) (rest : Reservation → Reservation → Action A)
      → ((id : ℕ) → (row id).id ≡ id)
      → ((id : ℕ) → IsUnassigned (row id))
      → ((r assigned : Reservation) → Holds Planned (λ _. Unit {0}) (rest r assigned))
      → Holds Planned
          (λ _. Unit {0})
          (add_reservation row >>= λ r.
            get_or_create_settings env services.encrypt >>= λ (a : AppSettings).
            assign_if_enabled env services.encrypt services.le now a.room_auto_assign_enabled r
            >>= rest r)
  created-Planned row rest same u p = record {
    after = λ s h k.
        let r = row s.current.reservations.next_id in
        settings-After _ r (add_reservation row s).1
          (λ a t new.
            After-bind
              (assign_if_enabled env services.encrypt services.le now a.room_auto_assign_enabled r)
              (rest r) t (assign-After a.room_auto_assign_enabled r t new) (p r))
          (add-IsNew row s same u h k);
  }

  pub create_reservation-Planned :
      (admin : AdminPin) (payload : ReservationCreate)
      → Holds Planned
          (λ _. Unit {0})
          (create_reservation env services.encrypt services.le now admin payload)
  unfolding create_reservation
  create_reservation-Planned admin payload =
      created-Planned (manual_reservation now payload) _ (λ id. refl)
        (λ id. record { own = refl; lines = tt })
        (λ r assigned.
          Holds-then
            (log-Planned admin.label "reservation.created_manual" (some "reservation") (some r.id)
              none)
            (Holds-then Holds-commit (Holds-pure assigned tt)))
