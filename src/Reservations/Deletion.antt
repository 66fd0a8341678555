-- ===== src/Reservations/Deletion.antt =====
-- What the deletion of a reservation spares.
use resaprint.Base.{
  ℕ, ◌≡◌, refl, sym, ◌∙◌, ap, inl, inr, true, false, some, List, [], ◌∷◌, arith, get, delete,
  select, Bool-cases, Option-cases, ◌==◌, ==_iff,
}
use resaprint.Models.{Reservation, AdminPin}
use resaprint.Database.{Db, request}
use resaprint.RoomAssignment.{is_cancelled}
use resaprint.EmailIngest.{get_reservation}
use resaprint.Reservations.Rooms.{apply_delete, delete_reservation_action}

get-delete_other :
    (j k : ℕ) (rs : List Reservation)
    → (j == k) ≡ false
    → get (λ r. r.id) j (delete (λ r. r.id) k rs) ≡ get (λ r. r.id) j rs
unfolding get delete select
get-delete_other j k [] ne = refl
get-delete_other j k (r ∷ rs) ne = elim (Bool-cases (r.id == k)) [
  | inl t ↦
      let away : (r.id == j) ≡ false = ground arith in rw (t, away) (get-delete_other j k rs ne)
  | inr f ↦ elim (Bool-cases (r.id == j)) [
    | inl here ↦ rw (f, here) refl
    | inr away ↦ rw (f, away) (get-delete_other j k rs ne)
  ]
]

id_of :
    (j : ℕ) (rs : List Reservation) (x : Reservation)
    → get (λ r. r.id) j rs ≡ some x
    → (x.id == j) ≡ true
unfolding get
id_of j [] x h = cc
id_of j (y ∷ ys) x h = elim (Bool-cases (y.id == j)) [
  | inl t ↦ let e : y ≡ x = cc in rw (← e) t
  | inr f ↦ id_of j ys x (rw f at h)
]

-- A stored reservation that is not cancelled is stored unchanged after a request to delete it or
-- any other reservation.
pub delete_reservation-keeps_active :
    (admin : AdminPin) (k : ℕ) (db : Db) (r : Reservation)
    → get_reservation r.id db ≡ some r
    → is_cancelled r.status ≡ false
    → get_reservation r.id (request (delete_reservation_action admin k) db).1 ≡ some r
unfolding request delete_reservation_action apply_delete
delete_reservation-keeps_active admin k db r stored active =
    elim (Option-cases (get_reservation k db)) [
      | inl absent ↦ rw (request, absent, stored) refl
      | inr (x, found) ↦ elim (Bool-cases (is_cancelled x.status)) [
        | inr spared ↦ rw (request, found, spared, stored) refl
        | inl gone ↦ elim (Bool-cases (r.id == x.id)) [
          | inl same ↦ absurd (clash x found gone same)
          | inr other ↦
              rw (request, found, gone)
                (get-delete_other r.id x.id db.reservations.rows other ∙ stored)
        ]
      ]
    ]
  where
    clash :
        (x : Reservation)
        → get_reservation k db ≡ some x
        → is_cancelled x.status ≡ true
        → (r.id == x.id) ≡ true
        → ⊥
    clash x found gone same =
        let k_of : x.id ≡ k = (==_iff x.id k).0 (id_of k db.reservations.rows x found) in
        let r_of : r.id ≡ x.id = (==_iff r.id x.id).0 same in
        let e : some x ≡ some r =
          sym found ∙ ap (λ j. get_reservation j db) (sym k_of ∙ sym r_of) ∙ stored in
        cc
