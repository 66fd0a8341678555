-- ===== src/Database/Tables.antt =====
-- `db.get`, `db.add` with `flush`, attribute assignment and `db.delete`, table by table.
use resaprint.Base.{
  ℕ, ◌+◌, Option, none, some, [], ◌∷◌, ◌++◌, get, update, delete, if◌then◌else◌, ◌==◌,
}
use resaprint.Models.{Reservation}
use resaprint.Database.State.{Db, Table}

-- The foreign keys are ON DELETE SET NULL where a column may be null.
abbrev pub unset_if : ℕ → Option ℕ → Option ℕ
unset_if k none = none
unset_if k (some j) = if j == k then none else some j

module _ {A : Type 0} (key_of : A → ℕ) where
  abbrev pub table_get : ℕ → Table A → Option A
  table_get k t = get key_of k t.rows

  abbrev pub table_update : ℕ → (A → A) → Table A → Table A
  table_update k f t = record t { rows = update key_of k f t.rows }

  abbrev pub table_delete : ℕ → Table A → Table A
  table_delete k t = record t { rows = delete key_of k t.rows }

-- The row is built from the id that the sequence gives.
abbrev pub table_add : {A : Type 0} → (ℕ → A) → Table A → Table A
table_add row t = record { rows = t.rows ++ row t.next_id ∷ []; next_id = t.next_id + 1 }

-- The reservation after its attributes were assigned.
abbrev pub put_reservation : ℕ → (Reservation → Reservation) → Db → Db
put_reservation k f db = record db { reservations = table_update (λ r. r.id) k f db.reservations }
