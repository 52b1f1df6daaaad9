-- ===== src/Prelude/Dict.antt =====
-- Go's `map`, as an association list without repeated keys. The order of the entries is not
-- observed but by `range` loops, which the models that need one write as recursion on the list.
use mathlib.Core.Path.{◌≡◌, refl}
use mathlib.Core.Bool.{Bool}
use mathlib.Core.Option.{Option, none, some}
use mathlib.Core.List.{List, [], ◌∷◌}
use native.Mathlib.Omega.{arith}
use em_wall.Prelude.Tests.{if◌then◌else◌}
use em_wall.Prelude.Keys.{KeyEq, ◌==◌}

module _ {ℓ κ} {K : Type ℓ} {V : Type κ} ⦃e : KeyEq K⦄ where
  -- v, ok := m[k]
  unfoldable pub lookup : K → List (K × V) → Option V
  lookup k [] = none
  lookup k ((j, v) ∷ m) = if j == k then some v else lookup k m

  -- delete(m, k)
  unfoldable pub delete : K → List (K × V) → List (K × V)
  delete k [] = []
  delete k ((j, v) ∷ m) = let rest = delete k m in if j == k then rest else (j, v) ∷ rest

  -- m[k] = v
  unfoldable pub insert : K → V → List (K × V) → List (K × V)
  insert k v m = (k, v) ∷ delete k m

  -- No key stands twice.
  abbrev pub IsMap : List (K × V) → Type κ
  IsMap [] = Unit
  IsMap ((k, v) ∷ m) = (lookup k m ≡ none) × IsMap m

  pub lookup-delete :
      (k j : K) (m : List (K × V)) → lookup j (delete k m) ≡ (if k == j then none else lookup j m)
  unfolding lookup delete
  lookup-delete k j [] = ground arith
  lookup-delete k j ((i, v) ∷ m) =
      ground (arith, lookup-delete k j m, e.same_iff i k, e.same_iff i j, e.same_iff k j)

  pub lookup-insert :
      (k j : K) (v : V) (m : List (K × V))
      → lookup j (insert k v m) ≡ (if k == j then some v else lookup j m)
  unfolding lookup insert
  lookup-insert k j v m = ground (arith, lookup-delete k j m)

  pub delete-IsMap : (k : K) (m : List (K × V)) → IsMap m → IsMap (delete k m)
  unfolding delete
  delete-IsMap k [] h = tt
  delete-IsMap k ((i, v) ∷ m) h = ground (arith, delete-IsMap k m h.1, lookup-delete k i m)

  pub insert-IsMap : (k : K) (v : V) (m : List (K × V)) → IsMap m → IsMap (insert k v m)
  unfolding insert
  insert-IsMap k v m h = (ground (arith, lookup-delete k k m, e.same_iff k k), delete-IsMap k m h)

-- What is left of an entry when the stale ones are gone.
abbrev pub unless_stale {κ} : {V : Type κ} → (V → Bool) → Option V → Option V
unless_stale stale none = none
unless_stale stale (some v) = if stale v then none else some v

module _ {ℓ κ} {K : Type ℓ} {V : Type κ} ⦃e : KeyEq K⦄ (stale : V → Bool) where
  -- for k, v := range m { if stale(v) { delete(m, k) } }
  unfoldable pub prune : List (K × V) → List (K × V)
  prune [] = []
  prune ((k, v) ∷ m) = let rest = prune m in if stale v then rest else (k, v) ∷ rest

  pub lookup-prune :
      (j : K) (m : List (K × V)) → IsMap m → lookup j (prune m) ≡ unless_stale stale (lookup j m)
  unfolding lookup prune
  lookup-prune j [] h = refl
  lookup-prune j ((k, v) ∷ m) h = ground (arith, lookup-prune j m h.1, e.same_iff k j, h.0)

  pub prune-IsMap : (m : List (K × V)) → IsMap m → IsMap (prune m)
  unfolding prune
  prune-IsMap [] h = tt
  prune-IsMap ((k, v) ∷ m) h = ground (arith, prune-IsMap m h.1, lookup-prune k m h.1, h.0)

pub ruleset dict_laws = (lookup-delete, lookup-insert)
