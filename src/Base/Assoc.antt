-- ===== src/Base/Assoc.antt =====
-- Go's `map[K]V` as an association list, with the laws of lookup after each write.
use mathlib.Core.List.{List, [], ◌∷◌}
use mathlib.Core.Option.{Option, none, some}
use mathlib.Core.Path.{◌≡◌}
use mathlib.Core.Logic.{◌≢◌, ◌⊎◌}
use native.Mathlib.Omega.{arith}
use super_proxy.Base.Tests.{Eq, ◌==◌, if◌then◌else◌, beq_refl}

module _ {ℓ κ} {K : Type ℓ} {V : Type κ} ⦃e : Eq K⦄ where
  unfoldable pub lookup : K → List (K × V) → Option V
  lookup k [] = none
  lookup k ((here, v) ∷ rest) = if here == k then some v else lookup k rest

  -- m[k] = v
  unfoldable pub insert : K → V → List (K × V) → List (K × V)
  insert k v [] = (k, v) ∷ []
  insert k v ((here, w) ∷ rest) = if here == k then (k, v) ∷ rest else (here, w) ∷ insert k v rest

  -- delete(m, k)
  unfoldable pub delete : K → List (K × V) → List (K × V)
  delete k [] = []
  delete k ((j, w) ∷ m) = if j == k then delete k m else (j, w) ∷ delete k m

  -- Only the entry that is written changes.
  pub lookup-insert :
      (k j : K) (v : V) (entries : List (K × V))
      → lookup j (insert k v entries) ≡ (if k == j then some v else lookup j entries)
  unfolding lookup insert
  lookup-insert k j v [] = ground arith
  lookup-insert k j v ((here, w) ∷ rest) =
      ground (arith, lookup-insert k j v rest, e.beq_iff k j, e.beq_iff here k, e.beq_iff here j)

  pub lookup-delete :
      (k j : K) (m : List (K × V)) → lookup j (delete k m) ≡ (if k == j then none else lookup j m)
  unfolding lookup delete
  lookup-delete k j [] = ground arith
  lookup-delete k j ((i, w) ∷ m) =
      ground (arith, e.beq_iff k j, e.beq_iff i k, e.beq_iff i j, lookup-delete k j m)

  pub lookup-insert_self : (k : K) (v : V) (m : List (K × V)) → lookup k (insert k v m) ≡ some v
  lookup-insert_self k v m = simp (lookup-insert, beq_refl)

  pub lookup-delete_self : (k : K) (m : List (K × V)) → lookup k (delete k m) ≡ none
  lookup-delete_self k m = simp (lookup-delete, beq_refl)

  -- Where an entry of a changed map comes from.
  pub delete_inv :
      (k j : K) (m : List (K × V)) {v : V}
      → lookup j (delete k m) ≡ some v
      → (k ≢ j) × (lookup j m ≡ some v)
  delete_inv k j m h = ground (arith, lookup-delete k j m, e.beq_iff k j)

  pub insert_inv :
      (k j : K) (v : V) (m : List (K × V)) {w : V}
      → lookup j (insert k v m) ≡ some w
      → ((k ≡ j) × (v ≡ w)) ⊎ ((k ≢ j) × (lookup j m ≡ some w))
  insert_inv k j v m h = ground (arith, lookup-insert k j v m, e.beq_iff k j)
