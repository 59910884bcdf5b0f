-- ===== src/Prelude/Maps.antt =====
-- A Go `map[string]V` as an association list, the latest entry first.
use Prim.Native.String.{String}
use mathlib.Core.Path.{◌≡◌}
use mathlib.Core.Option.{Option, none, some}
use mathlib.Core.List.{List, [], ◌∷◌}
use native.Mathlib.Omega.{arith}
use text.Mathlib.Text.{◌==◌}
use text.Mathlib.TextEquality.{eq_iff}
use mathlib.Core.Bool.{Bool, true}
use authbyte.Prelude.Tests.{if◌then◌else◌}
use authbyte.Prelude.Lists.{all}

abbrev pub Assoc {ℓ} : Type ℓ → Type ℓ
Assoc V = List (String × V)

module _ {ℓ} {V : Type ℓ} where
  unfoldable pub lookup : Assoc V → String → Option V
  lookup [] k = none
  lookup ((j, v) ∷ m) k = if j == k then some v else lookup m k

  unfoldable pub remove : Assoc V → String → Assoc V
  remove [] k = []
  remove ((j, v) ∷ m) k = let rest = remove m k in if j == k then rest else (j, v) ∷ rest

  unfoldable pub insert : Assoc V → String → V → Assoc V
  unfolding remove
  insert m k v = (k, v) ∷ remove m k

  pub lookup-remove :
      (m : Assoc V) (k j : String) → lookup (remove m k) j ≡ (if k == j then none else lookup m j)
  unfolding lookup remove
  lookup-remove [] k j = ground arith
  lookup-remove ((i, v) ∷ m) k j =
      ground (arith, lookup-remove m k j, eq_iff i k, eq_iff i j, eq_iff k j)

  pub lookup-insert :
      (m : Assoc V) (k j : String) (v : V)
      → lookup (insert m k v) j ≡ (if k == j then some v else lookup m j)
  unfolding lookup insert
  lookup-insert m k j v = ground (arith, lookup-remove m k j)

  -- A test that every entry passes, each value found passes.
  pub all-lookup :
      (p : V → Bool) (m : Assoc V) (k : String) (v : V)
      → all (λ e. p e.1) m ≡ true
      → lookup m k ≡ some v
      → p v ≡ true
  unfolding lookup
  all-lookup p [] k v h e = cc
  all-lookup p ((j, w) ∷ m) k v h e = ground (arith, all-lookup p m k v)
