-- ===== src/Prelude/Assoc.antt =====
-- Go's maps with string keys, as association lists: the order of the entries is the order in which
-- one `range` loop meets them, and the theorems hold for every order. A nil map is the empty one.
use Prim.Native.String.{String}
use mathlib.Core.Path.{◌≡◌, refl}
use mathlib.Core.Bool.{Bool}
use mathlib.Core.Option.{Option, none, some}
use mathlib.Core.List.{List, [], ◌∷◌}
use native.Mathlib.Omega.{arith}
use package.kcp_glbc.Prelude.Tests.{◌==◌, eq_iff, if◌then◌else◌, is_some}

abbrev pub Dict {ℓ} : Type ℓ → Type ℓ
Dict V = List (String × V)

module _ {ℓ} {V : Type ℓ} where
  -- `v, ok := m[key]`
  unfoldable pub lookup : String → Dict V → Option V
  lookup key [] = none
  lookup key ((k, v) ∷ m) = if k == key then some v else lookup key m

  -- `m[key] = v`
  unfoldable pub put : String → V → Dict V → Dict V
  put key v [] = (key, v) ∷ []
  put key v ((k, w) ∷ m) = if k == key then (key, v) ∷ m else (k, w) ∷ put key v m

  -- `delete(m, key)`
  unfoldable pub delete : String → Dict V → Dict V
  delete key [] = []
  delete key ((k, w) ∷ m) = let rest = delete key m in if k == key then rest else (k, w) ∷ rest

  abbrev pub has : String → Dict V → Bool
  has key m = is_some (lookup key m)

  pub lookup-put :
      (key j : String) (v : V) (m : Dict V)
      → lookup j (put key v m) ≡ (if key == j then some v else lookup j m)
  unfolding lookup put
  lookup-put key j v [] = refl
  lookup-put key j v ((k, w) ∷ m) =
      ground (arith, eq_iff k key, eq_iff key j, eq_iff k j, lookup-put key j v m)

  pub lookup-delete :
      (key j : String) (m : Dict V)
      → lookup j (delete key m) ≡ (if key == j then none else lookup j m)
  unfolding lookup delete
  lookup-delete key j [] = ground arith
  lookup-delete key j ((k, w) ∷ m) =
      ground (arith, eq_iff k key, eq_iff key j, eq_iff k j, lookup-delete key j m)

  pub lookup-delete_absent : (key : String) (m : Dict V) → lookup key m ≡ none → delete key m ≡ m
  unfolding lookup delete
  lookup-delete_absent key [] h = refl
  lookup-delete_absent key ((k, w) ∷ m) h = ground (arith, lookup-delete_absent key m)

pub ruleset dict_laws = (lookup-put, lookup-delete)
