-- ===== src/Prelude/Maps.antt =====
-- Finite maps of the standard library, as association lists: `insert` replaces the value of a key.
use mathlib.Core.List.{List, [], ◌∷◌, lookup}
use mathlib.Core.Path.{◌≡◌}
use mathlib.Core.Logic.{◌≢◌}
use mathlib.Core.Option.{some}
use native.Mathlib.Omega.{arith}

module _ {ℓ} {K V : Type ℓ} (dec : Discrete K) where
  unfoldable pub insert : K → V → List (K × V) → List (K × V)
  insert k v [] = (k, v) ∷ []
  insert k v (e ∷ m) =
      let rest = insert k v m in elim (dec k e.0) [ yes _ ↦ (k, v) ∷ m | no _ ↦ e ∷ rest ]

  -- `HashMap::extend`.
  unfoldable pub extend : List (K × V) → List (K × V) → List (K × V)
  unfolding insert
  extend m [] = m
  extend m (e ∷ updates) = extend (insert e.0 e.1 m) updates

  pub lookup-insert : (k : K) (v : V) (m : List (K × V)) → lookup dec k (insert k v m) ≡ some v
  unfolding insert lookup
  lookup-insert k v [] = ground arith
  lookup-insert k v (e ∷ m) = let ih = lookup-insert k v m in ground arith

  pub lookup-insert_ne :
      (k q : K) (v : V) (m : List (K × V)) → q ≢ k → lookup dec q (insert k v m) ≡ lookup dec q m
  unfolding insert lookup
  lookup-insert_ne k q v [] ne = ground arith
  lookup-insert_ne k q v (e ∷ m) ne = let ih = lookup-insert_ne k q v m ne in ground arith
