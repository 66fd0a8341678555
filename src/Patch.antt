-- ===== src/Patch.antt =====
-- A field of a PATCH body (`exclude_unset=True`): left out, null, or a value.
use resaprint.Base.{Bool, true, false, Option, none, some}

pub data Patch {ℓ} (A : Type ℓ) : Type ℓ where
  unset : Patch A
  null : Patch A
  value : A → Patch A

-- `setattr` on a column that may be null.
abbrev pub patch_option {ℓ} : {A : Type ℓ} → Patch A → Option A → Option A
patch_option unset old = old
patch_option null old = none
patch_option (value a) old = some a

-- `setattr` on a column that may not: a null is refused by the database, `is_null` says when.
abbrev pub patch {ℓ} : {A : Type ℓ} → Patch A → A → A
patch unset old = old
patch null old = old
patch (value a) old = a

abbrev pub is_null {ℓ} : {A : Type ℓ} → Patch A → Bool
is_null null = true
is_null _ = false

-- `data.pop(field, None)`
abbrev pub popped {ℓ} : {A : Type ℓ} → Patch A → Option A
popped unset = none
popped null = none
popped (value a) = some a
