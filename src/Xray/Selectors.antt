-- ===== src/Xray/Selectors.antt =====
-- How Xray reads the selector of a balancer that internal/xray/supervisor.go generates: each of its texts
-- selects every outbound whose tag begins with it.
use super_proxy.Base.{
  ℕ, zero, suc, ◌≤◌, ◌<◌, ◌/◌, Bool, true, false, ◌||◌, Option, none, some, List, [], ◌∷◌, ◌==◌,
  nat_eq, string_eq, ltb, if◌then◌else◌, contains, ◌≡◌, arith, inl, inr, Bool-cases,
}
use super_proxy.Base.Int.{pos}
use super_proxy.Xray.{Tag, tag_eq, absent, exit, exit_like, Balancer, Rule}
use super_proxy.Xray.Routing.{exit_tags}
use super_proxy.Xray.Slots.{Ascending, Ascending-ext}
use super_proxy.Xray.Balancers.{find_balancer, Below}
use super_proxy.Xray.ActiveSet.{active_below}
use super_proxy.Xray.Transactions.{contains-active_below, active_below-Ascending}

-- The decimal digits of j begin with those of k; the fuel is enough for j + 1 digits.
unfoldable pub begins_with : ℕ → ℕ → ℕ → Bool
begins_with zero k j = false
begins_with (suc fuel) k j =
    let shorter = begins_with fuel k (j / 10) in
    if j == k then true else if ltb j 10 then false else shorter

-- A text of a generated selector selects an outbound "exit-j".
unfoldable pub selects : Tag → Tag → Bool
unfolding begins_with
selects (exit (pos k)) (exit (pos j)) = begins_with (suc j) k j
selects (exit_like text) (exit (pos j)) = text == ""
selects _ _ = false

unfoldable pub is_selected : List Tag → Tag → Bool
unfolding selects
is_selected [] tag = false
is_selected (selector ∷ rest) tag = selects selector tag || is_selected rest tag

-- Where a rule sends a connection when the outbounds are exit-0 to exit-(n-1): to its outbound, or to those
-- its balancer chooses from.
unfoldable pub destinations : ℕ → List Balancer → Rule → Option (List Tag)
unfolding is_selected active_below
destinations n balancers rule =
    if rule.balancer_tag == absent
    then some (rule.outbound_tag ∷ [])
    else elim (find_balancer rule.balancer_tag balancers) [
      | none ↦ none
      | some selector ↦ some (exit_tags (active_below n (is_selected selector)))
    ]

-- A tag of one digit is selected by itself only.
selects-exit : (k j : ℕ) → j < 10 → selects (exit (pos k)) (exit (pos j)) ≡ (k == j)
unfolding selects begins_with
selects-exit k j h = ground (arith, h)

is_selected-exit_tags :
    (slots : List ℕ) (j : ℕ)
    → j < 10
    → is_selected (exit_tags slots) (exit (pos j)) ≡ contains slots j
unfolding is_selected
is_selected-exit_tags [] j h = ground arith
is_selected-exit_tags (k ∷ slots) j h =
    ground (arith, selects-exit k j h, is_selected-exit_tags slots j h)

outside : (n j : ℕ) (slots : List ℕ) → Below n slots → ltb j n ≡ false → contains slots j ≡ false
outside n j [] b h = ground arith
outside n j (k ∷ slots) b h = ground (arith, b.0, h, outside n j slots b.1 h)

-- Among at most ten outbounds, the tags of some slots select the outbounds of these slots.
pub selected_exits :
    (n : ℕ) (slots : List ℕ)
    → n ≤ 10
    → Ascending slots
    → Below n slots
    → active_below n (is_selected (exit_tags slots)) ≡ slots
selected_exits n slots few a b =
    let found = is_selected (exit_tags slots) in
    Ascending-ext (active_below n found) slots (active_below-Ascending n found) a (λ j.
      elim (Bool-cases (ltb j n)) [
        | inl p ↦ ground (
          arith,
          p,
          contains-active_below n j found,
          is_selected-exit_tags slots j (ground (arith, p, few)),
        )
        | inr p ↦ ground (arith, p, contains-active_below n j found, outside n j slots b p)
      ])
