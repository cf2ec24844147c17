-- ===== src/Prelude/Assoc.antt =====
-- std::map and std::unordered_map as association lists with one entry for a key.
use mathlib.Core.Path.{◌≡◌, refl}
use mathlib.Core.Option.{Option, none, some}
use mathlib.Core.List.{List, [], ◌∷◌}
use native.Mathlib.Omega.{arith}
use bn_bserver.Prelude.Tests.{if◌then◌else◌}
use bn_bserver.Prelude.Text.{Text, ◌==◌, eq_iff}

module _ {ℓ} {V : Type ℓ} where
  unfoldable pub lookup : Text → List (Text × V) → Option V
  lookup k [] = none
  lookup k ((j, v) ∷ m) = if j == k then some v else lookup k m

  -- m[k] = v
  unfoldable pub insert : Text → V → List (Text × V) → List (Text × V)
  insert k v [] = (k, v) ∷ []
  insert k v ((j, w) ∷ m) = if j == k then (k, v) ∷ m else (j, w) ∷ insert k v m

  -- m.erase(k)
  unfoldable pub erase : Text → List (Text × V) → List (Text × V)
  erase k [] = []
  erase k ((j, w) ∷ m) = let rest = erase k m in if j == k then rest else (j, w) ∷ rest

  -- A stored value is found under its key, and every other key has what it had.
  pub lookup-insert :
      (key other : Text) (value : V) (entries : List (Text × V))
      → lookup other (insert key value entries)
        ≡ (if key == other then some value else lookup other entries)
  unfolding insert lookup
  lookup-insert key other value [] = refl
  lookup-insert key other value ((first, _) ∷ entries) = ground (
    arith,
    lookup-insert key other value entries,
    eq_iff first key,
    eq_iff first other,
    eq_iff key other,
  )

  -- An erased key has no value, and every other key has what it had.
  pub lookup-erase :
      (key other : Text) (entries : List (Text × V))
      → lookup other (erase key entries) ≡ (if key == other then none else lookup other entries)
  unfolding erase lookup
  lookup-erase key other [] = ground arith
  lookup-erase key other ((first, _) ∷ entries) = ground (
    arith,
    lookup-erase key other entries,
    eq_iff first key,
    eq_iff first other,
    eq_iff key other,
  )

pub ruleset map_laws = (lookup-insert, lookup-erase)
