-- ===== src/Xray/Slots.antt =====
-- Ascending lists of slots, as sets.
use super_proxy.Base.{
  ℕ, ◌<◌, false, ◌&&◌, ◌||◌, List, [], ◌∷◌, ◌==◌, nat_eq, ltb, contains, All, ◌≡◌, refl, arith,
  Distinct, inl, inr, Bool-cases, ◌∙◌,
}
use super_proxy.Base.Int.{ℤ, pos, negsuc}
use super_proxy.Xray.{tag_eq, tag_beq_iff, exit, int_eq}
use super_proxy.Xray.Routing.{add_slot, add_candidate, slots_of, exit_tags}

abbrev pub Above : ℕ → List ℕ → Type 0
Above k xs = All (λ (x : ℕ). k < x) xs

abbrev pub Ascending : List ℕ → Type 0
Ascending [] = Unit
Ascending (x ∷ xs) = Above x xs × Ascending xs

pub contains-add_slot :
    (k j : ℕ) (xs : List ℕ) → contains (add_slot k xs) j ≡ ((k == j) || contains xs j)
unfolding add_slot
contains-add_slot k j [] = ground arith
contains-add_slot k j (x ∷ xs) = ground (arith, contains-add_slot k j xs)

Above-trans : (k x : ℕ) (xs : List ℕ) → k < x → Above x xs → Above k xs
Above-trans k x [] h a = tt
Above-trans k x (y ∷ ys) h a = (omega arith, Above-trans k x ys h a.1)

add_slot-Above : (m k : ℕ) (xs : List ℕ) → m < k → Above m xs → Above m (add_slot k xs)
unfolding add_slot
add_slot-Above m k [] h a = ground arith
add_slot-Above m k (x ∷ xs) h a = ground (arith, add_slot-Above m k xs h a.1)

pub add_slot-Ascending : (k : ℕ) (xs : List ℕ) → Ascending xs → Ascending (add_slot k xs)
unfolding add_slot
add_slot-Ascending k [] a = ground arith
add_slot-Ascending k (x ∷ xs) a =
    ground (arith, add_slot-Ascending k xs a.1, add_slot-Above x k xs, Above-trans k x xs)

not_below : (j : ℕ) (xs : List ℕ) → Above j xs → contains xs j ≡ false
not_below j [] a = refl
not_below j (x ∷ xs) a = ground (arith, not_below j xs a.1)

pub Ascending-Distinct : (xs : List ℕ) → Ascending xs → Distinct xs
Ascending-Distinct [] a = tt
Ascending-Distinct (x ∷ xs) a = (not_below x xs a.0, Ascending-Distinct xs a.1)

same_tail :
    (x y : ℕ) (xs ys : List ℕ)
    → x ≡ y
    → Ascending (x ∷ xs)
    → Ascending (y ∷ ys)
    → ((j : ℕ) → contains (x ∷ xs) j ≡ contains (y ∷ ys) j)
    → (j : ℕ) → contains xs j ≡ contains ys j
same_tail x y xs ys p a b same j = ground (arith, same j, not_below x xs a.0, not_below y ys b.0)

-- An ascending list is determined by its members.
pub Ascending-ext :
    (xs ys : List ℕ)
    → Ascending xs
    → Ascending ys
    → ((j : ℕ) → contains xs j ≡ contains ys j)
    → xs ≡ ys
Ascending-ext [] [] a b same = refl
Ascending-ext [] (y ∷ ys) a b same = ground (arith, same y)
Ascending-ext (x ∷ xs) [] a b same = ground (arith, same x)
Ascending-ext (x ∷ xs) (y ∷ ys) a b same =
    let heads : x ≡ y = ground (
      arith,
      same x,
      same y,
      not_below x ys,
      not_below y xs,
      Above-trans x y ys,
      Above-trans y x xs,
    ) in
    let tails = Ascending-ext xs ys a.1 b.1 (same_tail x y xs ys heads a b same) in
    λ i. heads i ∷ tails i

pub contains-slots_of :
    (n j : ℕ) (cs : List ℤ) → contains (slots_of n cs) j ≡ (ltb j n && contains cs (pos j))
unfolding slots_of add_candidate
contains-slots_of n j [] = ground arith
contains-slots_of n j (pos k ∷ cs) =
    ground (arith, contains-slots_of n j cs, contains-add_slot k j (slots_of n cs))
contains-slots_of n j (negsuc k ∷ cs) = ground (arith, contains-slots_of n j cs)

pub slots_of-Ascending : (n : ℕ) (cs : List ℤ) → Ascending (slots_of n cs)
unfolding slots_of add_candidate
slots_of-Ascending n [] = tt
slots_of-Ascending n (pos k ∷ cs) = elim (Bool-cases (ltb k n)) [
  | inl p ↦ rw p (add_slot-Ascending k (slots_of n cs) (slots_of-Ascending n cs))
  | inr p ↦ rw p (slots_of-Ascending n cs)
]
slots_of-Ascending n (negsuc k ∷ cs) = slots_of-Ascending n cs

pub contains-exit_tags :
    (k : ℕ) (slots : List ℕ) → contains (exit_tags slots) (exit (pos k)) ≡ contains slots k
contains-exit_tags k [] = ground arith
contains-exit_tags k (x ∷ slots) =
    ground (arith, contains-exit_tags k slots, tag_beq_iff (exit (pos x)) (exit (pos k)))

pub exit_tags-Distinct : (slots : List ℕ) → Distinct slots → Distinct (exit_tags slots)
exit_tags-Distinct [] d = tt
exit_tags-Distinct (x ∷ slots) d = (contains-exit_tags x slots ∙ d.0, exit_tags-Distinct slots d.1)
