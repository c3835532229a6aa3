-- ===== src/Candidates/Order.antt =====
-- The first row of an ordered query that passes a test is the best that passes it.
use mathlib.Core.List.{Memᴰ}
use super_proxy.Base.{
  ℕ, zero, suc, ◌≡◌, refl, sym, subst, Bool, true, false, ◌&&◌, some, List, [], ◌∷◌, if◌then◌else◌,
  All, filter, arith, Bool-cases, if_either, inl, inr,
}
use super_proxy.Candidates.{insert_sorted, order_by, take, find}

module _ {ℓ} {A : Type ℓ} where
  find-holds : (p : A → Bool) (x : A) (xs : List A) → find p xs ≡ some x → (p x ≡ true) × Memᴰ x xs
  unfolding find
  find-holds p x [] h = cc h
  find-holds p x (y ∷ xs) h = elim (Bool-cases (p y)) [
    | inl e ↦ let same : x ≡ y = cc (e, h) in (subst (λ z. p z ≡ true) (sym same) e, Memᴰ.head same)
    | inr e ↦
        let later : find p xs ≡ some x = cc (e, h) in
        let rest = find-holds p x xs later in (rest.0, Memᴰ.tail rest.1)
  ]

  take-Mem : (n : ℕ) (x : A) (xs : List A) → Memᴰ x (take n xs) → Memᴰ x xs
  unfolding take
  take-Mem zero x xs m = elim m [ ]
  take-Mem (suc n) x [] m = m
  take-Mem (suc n) x (y ∷ xs) (Memᴰ.head e) = Memᴰ.head e
  take-Mem (suc n) x (y ∷ xs) (Memᴰ.tail m) = Memᴰ.tail (take-Mem n x xs m)

  kept :
      (b : Bool) (c : A → Bool) (x y : A) (rest xs : List A)
      → c y ≡ b
      → Memᴰ x (if b then y ∷ rest else rest)
      → (Memᴰ x rest → (c x ≡ true) × Memᴰ x xs)
      → (c x ≡ true) × Memᴰ x (y ∷ xs)
  kept true c x y rest xs e (Memᴰ.head same) later =
      (subst (λ z. c z ≡ true) (sym same) e, Memᴰ.head same)
  kept true c x y rest xs e (Memᴰ.tail m) later = let r = later m in (r.0, Memᴰ.tail r.1)
  kept false c x y rest xs e m later = let r = later m in (r.0, Memᴰ.tail r.1)

  pub filter-Mem :
      (c : A → Bool) (x : A) (xs : List A) → Memᴰ x (filter c xs) → (c x ≡ true) × Memᴰ x xs
  filter-Mem c x [] m = elim m [ ]
  filter-Mem c x (y ∷ xs) m =
      kept (c y) c x y (filter c xs) xs refl m (λ rest. filter-Mem c x xs rest)

  -- What holds of the rows that a test keeps fails of no row or with the test.
  pub filter-All :
      (c f : A → Bool) (xs : List A)
      → All (λ x. f x ≡ false) (filter c xs)
      → All (λ x. (c x && f x) ≡ false) xs
  filter-All c f [] h = tt
  filter-All c f (x ∷ xs) h = elim (Bool-cases (c x)) [
    | inl e ↦
        let parts : All (λ y. f y ≡ false) (x ∷ filter c xs) = subst (λ b. branch b) e h in
        (ground (arith, parts.0), filter-All c f xs parts.1)
    | inr e ↦
        let rest : All (λ y. f y ≡ false) (filter c xs) = subst (λ b. branch b) e h in
        (ground (arith, e), filter-All c f xs rest)
  ]
    where
      branch : Bool → Type 0
      branch b = let rest = filter c xs in All (λ y. f y ≡ false) (if b then x ∷ rest else rest)

  module _ (before : A → A → Bool) where
    insert-Mem : (a x : A) (ys : List A) → Memᴰ a (insert_sorted before x ys) → Memᴰ a (x ∷ ys)
    unfolding insert_sorted
    insert-Mem a x [] m = m
    insert-Mem a x (y ∷ ys) m = branch (before y x) m (λ rest. insert-Mem a x ys rest)
      where
        branch :
            (b : Bool)
            → Memᴰ a (if b then y ∷ insert_sorted before x ys else x ∷ y ∷ ys)
            → (Memᴰ a (insert_sorted before x ys) → Memᴰ a (x ∷ ys))
            → Memᴰ a (x ∷ y ∷ ys)
        branch true (Memᴰ.head e) later = Memᴰ.tail (Memᴰ.head e)
        branch true (Memᴰ.tail r) later = elim (later r) [
          | Memᴰ.head e ↦ Memᴰ.head e
          | Memᴰ.tail t ↦ Memᴰ.tail (Memᴰ.tail t)
        ]
        branch false r later = r

    order_by-Mem : (a : A) (xs : List A) → Memᴰ a (order_by before xs) → Memᴰ a xs
    unfolding order_by
    order_by-Mem a [] m = m
    order_by-Mem a (x ∷ xs) m = elim (insert-Mem a x (order_by before xs) m) [
      | Memᴰ.head e ↦ Memᴰ.head e
      | Memᴰ.tail t ↦ Memᴰ.tail (order_by-Mem a xs t)
    ]

    -- The row that is found is among the rows and passes both tests.
    pub find-among :
        (c p : A → Bool) (n : ℕ) (a : A) (rows : List A)
        → find p (take n (order_by before (filter c rows))) ≡ some a
        → Memᴰ a rows × (c a ≡ true) × (p a ≡ true)
    find-among c p n a rows e =
        let sorted = order_by before (filter c rows) in
        let found = find-holds p a (take n sorted) e in
        let among =
          filter-Mem c a rows (order_by-Mem a (filter c rows) (take-Mem n a sorted found.1)) in
        (among.1, among.0, found.0)

  module _ (before : A → A → Bool) (irreflexive : (a : A) → before a a ≡ false)
      (asymmetric : (a b : A) → before a b ≡ true → before b a ≡ false)
      (negatively_transitive : (a b c : A)
        → before a b ≡ false
        → before b c ≡ false
        → before a c ≡ false) where
    abbrev Sorted : List A → Type 0
    Sorted [] = Unit
    Sorted (x ∷ xs) = All (λ y. before y x ≡ false) xs × Sorted xs

    insert-All :
        (P : A → Type 0) (x : A) (ys : List A) → P x → All P ys → All P (insert_sorted before x ys)
    unfolding insert_sorted
    insert-All P x [] h hs = (h, tt)
    insert-All P x (y ∷ ys) h (hy, hs) =
        if_either (All P) (before y x) (hy, insert-All P x ys h hs) (h, (hy, hs))

    All_of_insert :
        (P : A → Type 0) (x : A) (ys : List A) → All P (insert_sorted before x ys) → P x × All P ys
    unfolding insert_sorted
    All_of_insert P x [] h = h
    All_of_insert P x (y ∷ ys) h = elim (Bool-cases (before y x)) [
      | inl e ↦
          let parts : P y × All P (insert_sorted before x ys) = subst (λ b. branch b) e h in
          let rest = All_of_insert P x ys parts.1 in (rest.0, (parts.0, rest.1))
      | inr e ↦ subst (λ b. branch b) e h
    ]
      where
        branch : Bool → Type 0
        branch b = All P (if b then y ∷ insert_sorted before x ys else x ∷ y ∷ ys)

    later_too :
        (x y : A) (ys : List A)
        → before y x ≡ false
        → All (λ z. before z y ≡ false) ys
        → All (λ z. before z x ≡ false) ys
    later_too x y [] e h = tt
    later_too x y (z ∷ ys) e (h, hs) = (negatively_transitive z y x h e, later_too x y ys e hs)

    insert-Sorted : (x : A) (ys : List A) → Sorted ys → Sorted (insert_sorted before x ys)
    unfolding insert_sorted
    insert-Sorted x [] h = (tt, tt)
    insert-Sorted x (y ∷ ys) (h, hs) = elim (Bool-cases (before y x)) [
      | inl e ↦
          rw e
            (insert-All (λ z. before z y ≡ false) x ys (asymmetric y x e) h, insert-Sorted x ys hs)
      | inr e ↦ rw e ((e, later_too x y ys e h), (h, hs))
    ]

    order_by-Sorted : (xs : List A) → Sorted (order_by before xs)
    unfolding order_by
    order_by-Sorted [] = tt
    order_by-Sorted (x ∷ xs) = insert-Sorted x (order_by before xs) (order_by-Sorted xs)

    All_of_order_by : (P : A → Type 0) (xs : List A) → All P (order_by before xs) → All P xs
    unfolding order_by
    All_of_order_by P [] h = tt
    All_of_order_by P (x ∷ xs) h =
        let parts = All_of_insert P x (order_by before xs) h in
        (parts.0, All_of_order_by P xs parts.1)

    after_found :
        (p : A → Bool) (x : A) (ys : List A)
        → All (λ y. before y x ≡ false) ys
        → All (λ y. (p y && before y x) ≡ false) ys
    after_found p x [] h = tt
    after_found p x (y ∷ ys) (h, hs) = (ground (arith, h), after_found p x ys hs)

    found-first :
        (p : A → Bool) (n : ℕ) (x : A) (ys : List A)
        → Sorted ys
        → find p (take n ys) ≡ some x
        → All (λ y. (p y && before y x) ≡ false) ys
    unfolding find take
    found-first p zero x ys h e = cc e
    found-first p (suc n) x [] h e = tt
    found-first p (suc n) x (y ∷ ys) (h, hs) e = elim (Bool-cases (p y)) [
      | inl passes ↦
          let same : x ≡ y = cc (passes, e) in
          subst (λ z. All (λ w. (p w && before w z) ≡ false) (y ∷ ys)) (sym same)
            (ground (arith, irreflexive y), after_found p y ys h)
      | inr fails ↦
          let later : find p (take n ys) ≡ some x = cc (fails, e) in
          (ground (arith, fails), found-first p n x ys hs later)
    ]

    -- No row that passes both tests is before the row that is found.
    pub find-best :
        (c p : A → Bool) (n : ℕ) (a : A) (rows : List A)
        → find p (take n (order_by before (filter c rows))) ≡ some a
        → All (λ b. (c b && (p b && before b a)) ≡ false) rows
    find-best c p n a rows e =
        filter-All c (λ b. p b && before b a) rows
          (All_of_order_by (λ b. (p b && before b a) ≡ false) (filter c rows)
            (found-first p n a (order_by before (filter c rows)) (order_by-Sorted (filter c rows))
              e))
