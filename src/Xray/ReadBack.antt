-- ===== src/Xray/ReadBack.antt =====
-- internal/xray/supervisor.go: what Xray answers after a change of its rules, and its verification.
use super_proxy.Base.{
  ℕ, String, Bool, true, false, ◌&&◌, ◌||◌, not, Option, none, some, List, [], ◌∷◌, ◌==◌, nat_eq,
  string_eq, if◌then◌else◌, length, contains, leb,
}
use super_proxy.Base.Int.{ℤ, pos, negsuc}
use super_proxy.Xray.{
  Tag, tag_eq, absent, api, block, exit, exit_like, balancer, other, RuntimeRule, Line, Api,
}

pub data ReadBackError : Type 0 where
  list_failed rule_not_found socks_mismatch vless_mismatch draining_targeted : ReadBackError
  balancer_inactive slot_not_selected draining_selected selector_count : ReadBackError

-- findRuntimeRule
unfoldable pub find_runtime_rule : List RuntimeRule → String → Option RuntimeRule
find_runtime_rule [] rule_tag = none
find_runtime_rule (rule ∷ rules) rule_tag =
    let later = find_runtime_rule rules rule_tag in
    if rule.rule_tag == rule_tag then some rule else later

-- expectedRuntimeTarget: the outbound's tag and the balancer's.
unfoldable pub expected_runtime_target : List ℕ → Tag × Tag
expected_runtime_target [] = (block, absent)
expected_runtime_target (k ∷ []) = (exit (pos k), absent)
expected_runtime_target (k ∷ l ∷ rest) = (absent, balancer (k ∷ l ∷ rest))

-- validateRuntimeRuleTarget: whether it returns no error.
unfoldable pub validate_runtime_rule_target : Option RuntimeRule → List ℕ → Bool
unfolding expected_runtime_target
validate_runtime_rule_target none slots = false
validate_runtime_rule_target (some rule) slots =
    let expected = expected_runtime_target slots in
    if leb 2 (length slots)
    then (rule.tag == absent)
      && ((rule.balancer_tag == absent) || (rule.balancer_tag == expected.1))
    else (rule.tag == expected.0) && (rule.balancer_tag == expected.1)

-- `strings.HasPrefix(f, "exit-")`
abbrev pub is_exit : Tag → Bool
is_exit (exit k) = true
is_exit (exit_like s) = true
is_exit absent = false
is_exit api = false
is_exit block = false
is_exit (balancer slots) = false
is_exit (other s) = false

-- The set actualSelectors, as a list without repetition.
unfoldable pub add_selector : Tag → List Tag → List Tag
add_selector f set = if is_exit f && not (contains set f) then f ∷ set else set

unfoldable pub add_selectors : List Tag → List Tag → List Tag
unfolding add_selector
add_selectors [] set = set
add_selectors (f ∷ fields) set = add_selectors fields (add_selector f set)

-- The loop over the lines of `bi`; the Boolean is inSelects.
unfoldable pub actual_selectors : Bool → List Line → List Tag → List Tag
unfolding add_selectors
actual_selectors in_selects [] set = set
actual_selectors in_selects (line ∷ lines) set =
    actual_selectors (line.has_selects || (in_selects && not line.is_item)) lines (
      if not line.has_selects && (in_selects && not line.is_item)
      then add_selectors line.fields set
      else set)

unfoldable pub selects : List Line → Bool
selects [] = false
selects (line ∷ lines) = line.has_selects || selects lines

unfoldable pub all_selected : List ℕ → List Tag → Bool
all_selected [] actual = true
all_selected (k ∷ slots) actual = contains actual (exit (pos k)) && all_selected slots actual

-- `drainingSlot >= 0`, and the slot's tag is in the set.
unfoldable pub has_draining : ℤ → List Tag → Bool
has_draining (pos k) tags = contains tags (exit (pos k))
has_draining (negsuc k) tags = false

unfoldable pub check_selectors : List ℕ → ℤ → List Tag → Option ReadBackError
unfolding all_selected has_draining
check_selectors slots draining actual =
    if not (all_selected slots actual)
    then some slot_not_selected
    else if has_draining draining actual
    then some draining_selected
    else if not (length actual == length slots)
    then some selector_count
    else none

unfoldable pub check_info : List ℕ → ℤ → Option (List Line) → Option ReadBackError
unfolding selects check_selectors actual_selectors
check_info slots draining none = some balancer_inactive
check_info slots draining (some lines) =
    if selects lines
    then check_selectors slots draining (actual_selectors false lines [])
    else some balancer_inactive

module _ {X : Type 0} (xray : Api X) (slots : List ℕ) (draining : ℤ) (x : X) where
  unfoldable pub check_balancer : Option ReadBackError
  unfolding check_info expected_runtime_target
  check_balancer =
      if leb 2 (length slots)
      then check_info slots draining (xray.bi ((expected_runtime_target slots).1) x)
      else none

  unfoldable pub check_rules : Bool → Option RuntimeRule → Option RuntimeRule → Option ReadBackError
  unfolding check_balancer validate_runtime_rule_target has_draining
  check_rules vless_enabled none vless_rule = some rule_not_found
  check_rules vless_enabled (some rule) vless_rule =
      if not (validate_runtime_rule_target (some rule) slots)
      then some socks_mismatch
      else if vless_enabled && not (validate_runtime_rule_target vless_rule slots)
      then some vless_mismatch
      else if has_draining draining (rule.tag ∷ [])
      then some draining_targeted
      else check_balancer

  unfoldable pub check_listed : Bool → Option (List RuntimeRule) → Option ReadBackError
  unfolding check_rules find_runtime_rule
  check_listed vless_enabled none = some list_failed
  check_listed vless_enabled (some rules) =
      check_rules vless_enabled (find_runtime_rule rules "active-balancer-rule")
        (find_runtime_rule rules "active-balancer-rule-vless")

  -- verifyRuntimeRoutingLocked
  unfoldable pub verify_runtime_routing : Bool → Option ReadBackError
  unfolding check_listed
  verify_runtime_routing vless_enabled = check_listed vless_enabled (xray.lsrules x)
