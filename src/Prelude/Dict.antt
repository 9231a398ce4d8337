-- ===== src/Prelude/Dict.antt =====
-- Go's `map[string]V`, as an association list with one entry for a key. The program iterates over
-- such maps only where the order does not matter.
use Prim.Native.String.{String}
use mathlib.Core.Path.{◌≡◌, refl}
use mathlib.Core.List.{List, [], ◌∷◌}
use mathlib.Core.Option.{Option, none, some}
use native.Mathlib.Omega.{arith}
use text.Mathlib.Text.{◌==◌}
use text.Mathlib.TextEquality.{eq_iff}
use huxio.Prelude.Tests.{if◌then◌else◌}

abbrev pub Dict {ℓ} : Type ℓ → Type ℓ
Dict V = List (String × V)

module _ {ℓ} {V : Type ℓ} where
  -- m[k], and whether it is there
  unfoldable pub get : Dict V → String → Option V
  get [] k = none
  get ((j, v) ∷ m) k = if j == k then some v else get m k

  -- m[k] = v
  unfoldable pub put : Dict V → String → V → Dict V
  put [] k v = (k, v) ∷ []
  put ((j, w) ∷ m) k v = let rest = put m k v in if j == k then (k, v) ∷ m else (j, w) ∷ rest

  pub get-put :
      (m : Dict V) (k : String) (v : V) (j : String)
      → get (put m k v) j ≡ (if k == j then some v else get m j)
  unfolding get put
  get-put [] k v j = refl
  get-put ((i, w) ∷ m) k v j = ground (arith, eq_iff k j, eq_iff i k, eq_iff i j, get-put m k v j)

  -- An update, and a read of the key that was written.
  pub get-put_self : (m : Dict V) (k : String) (v : V) → get (put m k v) k ≡ some v
  get-put_self m k v = ground (arith, get-put m k v k, eq_iff k k)
