-- ===== src/Xray/Balancers.antt =====
-- The balancers of `Routing` as Xray looks them up for a rule.
use super_proxy.Base.{
  ℕ, zero, suc, ◌+◌, ◌-◌, ◌≤◌, ◌<◌, Option, none, some, List, [], ◌∷◌, ◌++◌, ◌==◌, nat_eq,
  string_eq, leb, length, if◌then◌else◌, All, ◌≡◌, ◌⊎◌, refl, arith, inl, inr, Bool-cases, ◌∙◌, ap,
  subst,
}
use super_proxy.Xray.{Tag, tag_beq, tag_eq, block, balancer, int_eq, Balancer, tag_beq_iff}
use super_proxy.Xray.Routing.{exit_tags, emit_balancer, generate_subsets, generate_balancers}
use super_proxy.Xray.Slots.{Ascending}
use mathlib.Core.List.{append_assoc}

-- The selector of the first balancer with a tag.
unfoldable pub find_balancer : Tag → List Balancer → Option (List Tag)
find_balancer tag [] = none
find_balancer tag (b ∷ rest) =
    let later = find_balancer tag rest in if b.tag == tag then some b.selector else later

abbrev pub exits_or_block : List ℕ → List Tag
exits_or_block [] = block ∷ []
exits_or_block (k ∷ slots) = exit_tags (k ∷ slots)

module _ (ys : List ℕ) where
  abbrev Found : List Balancer → Type 0
  Found l = find_balancer (balancer ys) l ≡ some (exit_tags ys)

  abbrev IsSound : List Balancer → Type 0
  IsSound l = (find_balancer (balancer ys) l ≡ none) ⊎ Found l

  append-IsSound : (a b : List Balancer) → IsSound a → IsSound b → IsSound (a ++ b)
  unfolding find_balancer
  append-IsSound [] b ha hb = hb
  append-IsSound (x ∷ a) b ha hb = ground (arith, append-IsSound a b)

  Found-left : (a b : List Balancer) → Found a → Found (a ++ b)
  unfolding find_balancer
  Found-left [] b h = ground arith
  Found-left (x ∷ a) b h = ground (arith, Found-left a b)

  Found-right : (a b : List Balancer) → IsSound a → Found b → Found (a ++ b)
  unfolding find_balancer
  Found-right [] b ha h = h
  Found-right (x ∷ a) b ha h = ground (arith, Found-right a b)

  emit_balancer-IsSound : (cur : List ℕ) → IsSound (emit_balancer cur)
  unfolding emit_balancer find_balancer
  emit_balancer-IsSound cur = elim (Bool-cases (leb 2 (length cur))) [
    | inl p ↦ rw p (elim (Bool-cases (balancer cur == balancer ys)) [
      | inl q ↦ let e = (tag_beq_iff (balancer cur) (balancer ys)).0 q in inr (rw q (cc))
      | inr q ↦ inl (rw q refl)
    ])
    | inr p ↦ rw p (inl refl)
  ]

  generate_subsets-IsSound : (n left : ℕ) (cur : List ℕ) → IsSound (generate_subsets n left cur)
  unfolding generate_subsets find_balancer
  generate_subsets-IsSound n zero cur = inl refl
  generate_subsets-IsSound n (suc left) cur =
      let next = cur ++ ((n - suc left) ∷ []) in
      append-IsSound (emit_balancer next)
        (generate_subsets n left next ++ generate_subsets n left cur) (emit_balancer-IsSound next)
        (append-IsSound (generate_subsets n left next) (generate_subsets n left cur)
          (generate_subsets-IsSound n left next) (generate_subsets-IsSound n left cur))

  emitted : (cur : List ℕ) → cur ≡ ys → 2 ≤ length ys → Found (emit_balancer cur)
  unfolding emit_balancer find_balancer
  emitted cur e h = ground (arith, tag_beq_iff (balancer cur) (balancer ys), e, ap exit_tags e)

abbrev next : ℕ → ℕ → List ℕ → List ℕ
next n left cur = cur ++ ((n - suc left) ∷ [])

-- What the rest of the loop holds is found after what comes before it.
module _ (ys : List ℕ) (n left : ℕ) (cur : List ℕ) where
  in_emitted : next n left cur ≡ ys → 2 ≤ length ys → Found ys (generate_subsets n (suc left) cur)
  unfolding generate_subsets
  in_emitted e two =
      Found-left ys (emit_balancer (next n left cur))
        (generate_subsets n left (next n left cur) ++ generate_subsets n left cur)
        (emitted ys (next n left cur) e two)

  in_subset :
      Found ys (generate_subsets n left (next n left cur))
      → Found ys (generate_subsets n (suc left) cur)
  unfolding generate_subsets
  in_subset h =
      Found-right ys (emit_balancer (next n left cur))
        (generate_subsets n left (next n left cur) ++ generate_subsets n left cur)
        (emit_balancer-IsSound ys (next n left cur))
        (Found-left ys (generate_subsets n left (next n left cur)) (generate_subsets n left cur) h)

  in_rest : Found ys (generate_subsets n left cur) → Found ys (generate_subsets n (suc left) cur)
  unfolding generate_subsets
  in_rest h =
      Found-right ys (emit_balancer (next n left cur))
        (generate_subsets n left (next n left cur) ++ generate_subsets n left cur)
        (emit_balancer-IsSound ys (next n left cur))
        (Found-right ys (generate_subsets n left (next n left cur)) (generate_subsets n left cur)
          (generate_subsets-IsSound ys n left (next n left cur)) h)

abbrev pub Below : ℕ → List ℕ → Type 0
Below n xs = All (λ y. y < n) xs

-- From a part of a subset the loop reaches the whole of it.
reached :
    (n left : ℕ) (cur : List ℕ) (x : ℕ) (xs : List ℕ)
    → left ≤ n
    → Ascending (x ∷ xs)
    → n ≤ x + left
    → Below n (x ∷ xs)
    → 2 ≤ length (cur ++ (x ∷ xs))
    → Found (cur ++ (x ∷ xs)) (generate_subsets n left cur)
reached n zero cur x xs h a low high two = ground arith
reached n (suc left) cur x [] h a low high two = elim (Bool-cases (x == (n - suc left))) [
  | inl p ↦
      let e : n - suc left ≡ x = ground (arith, p) in
      in_emitted (cur ++ (x ∷ [])) n left cur (ap (λ k. cur ++ (k ∷ [])) e) two
  | inr p ↦
      in_rest (cur ++ (x ∷ [])) n left cur
        (reached n left cur x [] (omega arith) a (ground (arith, p)) high two)
]
reached n (suc left) cur x (z ∷ zs) h a low high two = elim (Bool-cases (x == (n - suc left))) [
  | inl p ↦
      let e : n - suc left ≡ x = ground (arith, p) in
      let whole : next n left cur ++ (z ∷ zs) ≡ cur ++ (x ∷ z ∷ zs) =
        append_assoc cur ((n - suc left) ∷ []) (z ∷ zs) ∙ ap (λ k. cur ++ (k ∷ z ∷ zs)) e in
      in_subset (cur ++ (x ∷ z ∷ zs)) n left cur (
        subst (λ ys. Found ys (generate_subsets n left (next n left cur))) whole
          (reached n left (next n left cur) z zs (omega arith) a.1 (omega (arith, a.0, e)) high.1
            (rw whole two)))
  | inr p ↦
      in_rest (cur ++ (x ∷ z ∷ zs)) n left cur
        (reached n left cur x (z ∷ zs) (omega arith) a (ground (arith, p)) high two)
]

-- The generated balancers have one for each ascending list of two or more slots: exactly its outbounds.
pub generate_balancers-Found :
    (n : ℕ) (k l : ℕ) (rest : List ℕ)
    → Ascending (k ∷ l ∷ rest)
    → Below n (k ∷ l ∷ rest)
    → find_balancer (balancer (k ∷ l ∷ rest)) (generate_balancers n)
      ≡ some (exit_tags (k ∷ l ∷ rest))
unfolding generate_balancers find_balancer emit_balancer tag_beq
generate_balancers-Found n k l rest a high =
    reached n n [] k (l ∷ rest) (omega arith) a (omega arith) high (omega arith)
