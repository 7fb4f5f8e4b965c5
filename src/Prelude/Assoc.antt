-- ===== src/Prelude/Assoc.antt =====
-- A hash map that is iterated over, as an association list. The order of the list is the order of
-- iteration, which the program does not rely on.
use cmu_db_15445_project.Prelude.Tests.{◌==◌, if◌then◌else◌}
use Prim.Native.Nat.{ℕ}
use mathlib.Core.Path.{◌≡◌, refl}
use mathlib.Core.List.{List, [], ◌∷◌}
use mathlib.Core.Option.{Option, none, some}
use native.Mathlib.Omega.{arith}

module _ {ℓ} {V : Type ℓ} where
  abbrev pub lookup : ℕ → List (ℕ × V) → Option V
  lookup k [] = none
  lookup k ((j, v) ∷ m) = if j == k then some v else lookup k m

  -- `m[k] = v`.
  abbrev pub insert : ℕ → V → List (ℕ × V) → List (ℕ × V)
  insert k v [] = (k, v) ∷ []
  insert k v ((j, w) ∷ m) = if j == k then (k, v) ∷ m else (j, w) ∷ insert k v m

  -- `m.erase(k)`.
  abbrev pub erase_key : ℕ → List (ℕ × V) → List (ℕ × V)
  erase_key k [] = []
  erase_key k ((j, w) ∷ m) = if j == k then erase_key k m else (j, w) ∷ erase_key k m

  pub lookup-insert :
      (j k : ℕ) (v : V) (m : List (ℕ × V))
      → lookup j (insert k v m) ≡ (if k == j then some v else lookup j m)
  lookup-insert j k v [] = refl
  lookup-insert j k v ((i, w) ∷ m) = ground (arith, lookup-insert j k v m)

  pub lookup-erase_key :
      (j k : ℕ) (m : List (ℕ × V))
      → lookup j (erase_key k m) ≡ (if k == j then none else lookup j m)
  lookup-erase_key j k [] = ground arith
  lookup-erase_key j k ((i, w) ∷ m) = ground (arith, lookup-erase_key j k m)
