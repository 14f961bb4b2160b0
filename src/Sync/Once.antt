-- ===== src/Sync/Once.antt =====
-- `rivet/src/sync/once.rs`: a cell that is written once, at boot, by one context.
use rivet_rtos.Base.{Bool, true, false, Option, none, some, ◌≡◌, refl, if◌then◌else◌}

-- The flag, and the value, which is not initialised until the flag is set.
pub record Once {ℓ} (A : Type ℓ) : Type ℓ where
  pub is_set : Bool
  pub cell : Option A

module _ {ℓ} {A : Type ℓ} where
  unfoldable pub new : Once A
  new = record { is_set = false; cell = none }

  -- `Err(value)` is `some value`.
  unfoldable pub set : A → Once A → Option A × Once A
  set value o =
      if o.is_set then (some value, o) else (none, record { is_set = true; cell = some value })

  unfoldable pub get : Once A → Option A
  get o = if o.is_set then o.cell else none

  -- The first value that is set stays, and a later one is handed back.
  pub get-set :
      (v w : A) (o : Once A)
      → o.is_set ≡ false
      → (get o ≡ none)
        × (get (set v o).1 ≡ some v)
        × ((set w (set v o).1).0 ≡ some w)
        × (get (set w (set v o).1).1 ≡ some v)
  unfolding get set
  get-set v w o f = rw f (refl, refl, refl, refl)
