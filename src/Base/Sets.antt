-- ===== src/Base/Sets.antt =====
-- Lists without repetition, as sets.
use Prim.Native.Nat.{suc}
use mathlib.Core.Path.{◌≡◌, refl, subst, sym}
use mathlib.Core.Logic.{◌⊎◌, inl, inr}
use mathlib.Core.Bool.{true, false}
use mathlib.Core.List.{List, [], ◌∷◌}
use native.Mathlib.Omega.{arith}
use super_proxy.Base.Tests.{Eq, ◌==◌, if◌then◌else◌, Bool-cases}
use super_proxy.Base.Lists.{length, contains, All}

module _ {ℓ} {A : Type ℓ} ⦃e : Eq A⦄ where
  abbrev pub Distinct : List A → Type 0
  Distinct [] = Unit
  Distinct (x ∷ xs) = (contains xs x ≡ false) × Distinct xs

  unfoldable remove : A → List A → List A
  remove a [] = []
  remove a (x ∷ xs) = let rest = remove a xs in if x == a then xs else x ∷ rest

  length-remove :
      (a : A) (xs : List A) → contains xs a ≡ true → suc (length (remove a xs)) ≡ length xs
  unfolding remove
  length-remove a [] h = ground arith
  length-remove a (x ∷ xs) h = elim (Bool-cases (x == a)) [
    | inl p ↦ rw p (ground arith)
    | inr p ↦ ground (arith, p, length-remove a xs (ground (arith, p)))
  ]

  contains-remove :
      (a b : A) (xs : List A)
      → Distinct xs
      → contains xs b ≡ true
      → (b ≡ a) ⊎ (contains (remove a xs) b ≡ true)
  unfolding remove
  contains-remove a b [] d h = ground arith
  contains-remove a b (x ∷ xs) d h = elim (Bool-cases (x == a)) [
    | inl p ↦ ground (arith, p, e.beq_iff x a, e.beq_iff x b)
    | inr p ↦ ground (arith, p, contains-remove a b xs d.1)
  ]

  remove_from : (a b : A) (xs : List A) → contains xs b ≡ false → contains (remove a xs) b ≡ false
  unfolding remove
  remove_from a b [] h = ground arith
  remove_from a b (x ∷ xs) h = ground (arith, remove_from a b xs)

  remove-Distinct : (a : A) (xs : List A) → Distinct xs → Distinct (remove a xs)
  unfolding remove
  remove-Distinct a [] d = d
  remove-Distinct a (x ∷ xs) d = elim (Bool-cases (x == a)) [
    | inl p ↦ rw p (d.1)
    | inr p ↦ rw p (remove_from a x xs d.0, remove-Distinct a xs d.1)
  ]

  differ : (a b : A) → (b == a) ≡ false → (a == b) ≡ false
  differ a b h = elim (Bool-cases (a == b)) [
    | inl p ↦ ground (arith, (e.beq_iff b a).1 (sym ((e.beq_iff a b).0 p)))
    | inr p ↦ p
  ]

  kept_in :
      (a t : A) (ys : List A)
      → (a == t) ≡ false
      → Distinct ys
      → contains ys t ≡ true
      → contains (remove a ys) t ≡ true
  kept_in a t ys p d h = elim (contains-remove a t ys d h) [
    | inl q ↦ ground (arith, p, (e.beq_iff a t).1 (sym q))
    | inr q ↦ q
  ]

  within_rest :
      (x : A) (xs ys : List A)
      → contains xs x ≡ false
      → Distinct ys
      → All (λ y. contains ys y ≡ true) xs
      → All (λ y. contains (remove x ys) y ≡ true) xs
  within_rest x [] ys h d a = tt
  within_rest x (y ∷ rest) ys h d a = (
    kept_in x y ys (differ x y (ground (arith, h))) d a.0,
    within_rest x rest ys (ground (arith, h)) d a.1,
  )

  -- A set in another of the same size is the other.
  pub same_size :
      (xs ys : List A) (t : A)
      → Distinct xs
      → Distinct ys
      → All (λ x. contains ys x ≡ true) xs
      → length xs ≡ length ys
      → contains ys t ≡ contains xs t
  same_size [] [] t dx dy within size = refl
  same_size [] (y ∷ ys) t dx dy within size = ground arith
  same_size (x ∷ xs) ys t dx dy within size = elim (Bool-cases (x == t)) [
    | inl p ↦
        let same = (e.beq_iff x t).0 p in rw p (subst (λ u. contains ys u ≡ true) same within.0)
    | inr p ↦
        let ih =
          same_size xs (remove x ys) t dx.1 (remove-Distinct x ys dy)
            (within_rest x xs ys dx.0 dy within.1) (omega (arith, length-remove x ys within.0)) in
        rw p (ground (arith, ih, kept_in x t ys p dy, remove_from x t ys))
  ]
