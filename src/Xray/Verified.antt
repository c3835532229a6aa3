-- ===== src/Xray/Verified.antt =====
-- What the read-back of `ReadBack` establishes.
use super_proxy.Base.{
  ℕ, suc, String, Bool, true, false, ◌&&◌, ◌||◌, not, Option, none, some, List, [], ◌∷◌, nat_eq,
  string_eq, length, contains, All, Distinct, same_size, ◌≡◌, ◌≢◌, ◌⊎◌, refl, arith, inl, inr,
  Bool-cases, Option-cases, if_either, ◌∙◌, ap, subst,
}
use super_proxy.Base.Int.{ℤ, pos}
use super_proxy.Xray.{
  Tag, tag_eq, tag_beq_iff, absent, block, exit, balancer, RuntimeRule, Line, Api,
}
use super_proxy.Xray.Routing.{exit_tags}
use super_proxy.Xray.Slots.{Ascending, Ascending-Distinct, exit_tags-Distinct}
use super_proxy.Xray.ReadBack.{
  find_runtime_rule, expected_runtime_target, validate_runtime_rule_target, is_exit, add_selector,
  add_selectors, actual_selectors, all_selected, check_selectors, check_info, check_balancer,
  check_rules, check_listed, verify_runtime_routing,
}

-- The rule as it is listed. With one slot or none it names the outbound. With more it names no outbound, and the
-- balancer of the slots or no balancer at all: then the listing does not tell which balancer it uses.
unfoldable pub IsTarget : RuntimeRule → List ℕ → Type 0
IsTarget rule [] = (rule.tag ≡ block) × (rule.balancer_tag ≡ absent)
IsTarget rule (k ∷ []) = (rule.tag ≡ exit (pos k)) × (rule.balancer_tag ≡ absent)
IsTarget rule (k ∷ l ∷ rest) =
    (rule.tag ≡ absent)
    × ((rule.balancer_tag ≡ absent) ⊎ (rule.balancer_tag ≡ balancer (k ∷ l ∷ rest)))

-- Xray's listed rule of a tag has the slots as its target.
unfoldable pub Targets : List RuntimeRule → String → List ℕ → Type 0
Targets rules rule_tag slots =
    (rule : RuntimeRule) × (find_runtime_rule rules rule_tag ≡ some rule) × IsTarget rule slots

-- The balancer of two or more slots is there and selects exactly their outbounds.
unfoldable pub IsBalanced : {X : Type 0} → Api X → List ℕ → X → Type 0
IsBalanced xray [] x = Unit
IsBalanced xray (k ∷ []) x = Unit
IsBalanced xray (k ∷ l ∷ rest) x =
    (lines : List Line) × (xray.bi (balancer (k ∷ l ∷ rest)) x ≡ some lines)
    × ((t : Tag)
        → contains (actual_selectors false lines []) t ≡ contains (exit_tags (k ∷ l ∷ rest)) t)

-- What Xray answers fits the slots: its rules for the local proxy and, where it is enabled, for VLESS, and the
-- balancer of the slots.
pub record IsConfirmed {X : Type 0} (xray : Api X) (vless_enabled : Bool) (slots : List ℕ) (x : X)
    : Type 0 where
  pub rules : List RuntimeRule
  pub listed : xray.lsrules x ≡ some rules
  pub socks : Targets rules "active-balancer-rule" slots
  pub vless : (vless_enabled ≡ false) ⊎ Targets rules "active-balancer-rule-vless" slots
  pub balanced : IsBalanced xray slots x

validate-IsTarget :
    (rule : RuntimeRule) (slots : List ℕ)
    → validate_runtime_rule_target (some rule) slots ≡ true
    → IsTarget rule slots
unfolding validate_runtime_rule_target expected_runtime_target IsTarget
validate-IsTarget rule [] h =
    ground (arith, tag_beq_iff rule.tag block, tag_beq_iff rule.balancer_tag absent)
validate-IsTarget rule (k ∷ []) h =
    ground (arith, tag_beq_iff rule.tag (exit (pos k)), tag_beq_iff rule.balancer_tag absent)
validate-IsTarget rule (k ∷ l ∷ rest) h = ground (
  arith,
  tag_beq_iff rule.tag absent,
  tag_beq_iff rule.balancer_tag absent,
  tag_beq_iff rule.balancer_tag (balancer (k ∷ l ∷ rest)),
)

add_selector-Distinct : (f : Tag) (set : List Tag) → Distinct set → Distinct (add_selector f set)
unfolding add_selector
add_selector-Distinct f set d = elim (Bool-cases (is_exit f && not (contains set f))) [
  | inl p ↦ rw p (ground (arith, p), d)
  | inr p ↦ rw p d
]

add_selectors-Distinct :
    (fields set : List Tag) → Distinct set → Distinct (add_selectors fields set)
unfolding add_selectors
add_selectors-Distinct [] set d = d
add_selectors-Distinct (f ∷ fields) set d =
    add_selectors-Distinct fields (add_selector f set) (add_selector-Distinct f set d)

actual_selectors-Distinct :
    (inside : Bool) (lines : List Line) (set : List Tag)
    → Distinct set
    → Distinct (actual_selectors inside lines set)
unfolding actual_selectors
actual_selectors-Distinct inside [] set d = d
actual_selectors-Distinct inside (line ∷ lines) set d =
    actual_selectors-Distinct (line.has_selects || (inside && not line.is_item)) lines _ (
      if_either Distinct (not line.has_selects && (inside && not line.is_item))
        (add_selectors-Distinct line.fields set d) d)

all_selected-All :
    (slots : List ℕ) (actual : List Tag)
    → all_selected slots actual ≡ true
    → All (λ t. contains actual t ≡ true) (exit_tags slots)
unfolding all_selected
all_selected-All [] actual h = tt
all_selected-All (k ∷ slots) actual h =
    (ground (arith, h), all_selected-All slots actual (ground (arith, h)))

length-exit_tags : (slots : List ℕ) → length (exit_tags slots) ≡ length slots
length-exit_tags [] = refl
length-exit_tags (k ∷ slots) = ap suc (length-exit_tags slots)

-- The strict comparison of the selectors is one of sets.
check_selectors-exact :
    (slots : List ℕ) (draining : ℤ) (actual : List Tag)
    → Ascending slots
    → Distinct actual
    → check_selectors slots draining actual ≡ none
    → (t : Tag) → contains actual t ≡ contains (exit_tags slots) t
unfolding check_selectors
check_selectors-exact slots draining actual a d h t =
    same_size (exit_tags slots) actual t (exit_tags-Distinct slots (Ascending-Distinct slots a)) d
      (all_selected-All slots actual (ground (arith, h)))
      (length-exit_tags slots ∙ ground (arith, h))

check_info-exact :
    (slots : List ℕ) (draining : ℤ) (info : Option (List Line))
    → Ascending slots
    → check_info slots draining info ≡ none
    → (lines : List Line) × (info ≡ some lines)
      × ((t : Tag) → contains (actual_selectors false lines []) t ≡ contains (exit_tags slots) t)
unfolding check_info
check_info-exact slots draining none a h = ground arith
check_info-exact slots draining (some lines) a h = (
  lines,
  refl,
  check_selectors-exact slots draining (actual_selectors false lines []) a
      (actual_selectors-Distinct false lines [] tt) (ground (arith, h)),
)

missing : (slots : List ℕ) → validate_runtime_rule_target none slots ≢ true
unfolding validate_runtime_rule_target
missing slots h = ground arith

module _ {X : Type 0} (xray : Api X) (draining : ℤ) (x : X) where
  check_balancer-IsBalanced :
      (slots : List ℕ)
      → Ascending slots
      → check_balancer xray slots draining x ≡ none
      → IsBalanced xray slots x
  unfolding check_balancer IsBalanced expected_runtime_target
  check_balancer-IsBalanced [] a h = tt
  check_balancer-IsBalanced (k ∷ []) a h = tt
  check_balancer-IsBalanced (k ∷ l ∷ rest) a h =
      check_info-exact (k ∷ l ∷ rest) draining (xray.bi (balancer (k ∷ l ∷ rest)) x) a
        (ground (arith, h))

  check_rules-none :
      (vless_enabled : Bool) (socks vless : Option RuntimeRule) (slots : List ℕ)
      → check_rules xray slots draining x vless_enabled socks vless ≡ none
      → (validate_runtime_rule_target socks slots ≡ true)
        × ((vless_enabled ≡ false) ⊎ (validate_runtime_rule_target vless slots ≡ true))
        × (check_balancer xray slots draining x ≡ none)
  unfolding check_rules
  check_rules-none vless_enabled none vless slots h = ground arith
  check_rules-none vless_enabled (some rule) vless slots h = ground arith

  found-Targets :
      (rules : List RuntimeRule) (rule_tag : String) (slots : List ℕ)
      → validate_runtime_rule_target (find_runtime_rule rules rule_tag) slots ≡ true
      → Targets rules rule_tag slots
  unfolding Targets
  found-Targets rules rule_tag slots h = elim (Option-cases (find_runtime_rule rules rule_tag)) [
    | inl e ↦ absurd (missing slots (subst (λ o. validate_runtime_rule_target o slots ≡ true) e h))
    | inr (rule, e) ↦ (
      rule,
      e,
      validate-IsTarget rule slots (subst (λ o. validate_runtime_rule_target o slots ≡ true) e h),
    )
  ]

  listed-IsConfirmed :
      (vless_enabled : Bool) (slots : List ℕ) (o : Option (List RuntimeRule))
      → Ascending slots
      → xray.lsrules x ≡ o
      → check_listed xray slots draining x vless_enabled o ≡ none
      → IsConfirmed xray vless_enabled slots x
  unfolding check_listed
  listed-IsConfirmed vless_enabled slots none a e h = ground arith
  listed-IsConfirmed vless_enabled slots (some rules) a e h =
      let (socks, vless, balanced) =
        check_rules-none vless_enabled (find_runtime_rule rules "active-balancer-rule")
          (find_runtime_rule rules "active-balancer-rule-vless") slots h in
      record {
        rules = rules;
        listed = e;
        socks = found-Targets rules "active-balancer-rule" slots socks;
        vless = elim vless [
          | inl off ↦ inl off
          | inr on ↦ inr (found-Targets rules "active-balancer-rule-vless" slots on)
        ];
        balanced = check_balancer-IsBalanced slots a balanced;
      }

  pub verify-IsConfirmed :
      (vless_enabled : Bool) (slots : List ℕ)
      → Ascending slots
      → verify_runtime_routing xray slots draining x vless_enabled ≡ none
      → IsConfirmed xray vless_enabled slots x
  unfolding verify_runtime_routing
  verify-IsConfirmed vless_enabled slots a h =
      listed-IsConfirmed vless_enabled slots (xray.lsrules x) a refl h
