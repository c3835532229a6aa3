-- ===== src/Xray/Routing.antt =====
-- internal/xray/supervisor.go: the routing rules and the balancers that a set of slots gets. A Go set of
-- slots that is sorted before use is kept as its ascending list.
use super_proxy.Base.{
  ℕ, zero, suc, ◌-◌, String, Bool, true, false, List, [], ◌∷◌, ◌++◌, map, ◌==◌, nat_eq, ltb,
  if◌then◌else◌, length, leb,
}
use super_proxy.Base.Int.{ℤ, pos, negsuc}
use super_proxy.Xray.{
  Tag, absent, api, block, exit, exit_like, balancer, other, Rule, Balancer, RoutingConfig,
}

-- A slot in the ascending list of a set.
unfoldable pub add_slot : ℕ → List ℕ → List ℕ
add_slot k [] = k ∷ []
add_slot k (x ∷ xs) =
    let rest = add_slot k xs in if ltb k x then k ∷ x ∷ xs else if k == x then x ∷ xs else x ∷ rest

-- `sl >= 0 && sl < s.slotCount`
unfoldable pub add_candidate : ℕ → ℤ → List ℕ → List ℕ
add_candidate slot_count (pos k) set = if ltb k slot_count then add_slot k set else set
add_candidate slot_count (negsuc k) set = set

-- The slotMap of the candidates, sorted.
unfoldable pub slots_of : ℕ → List ℤ → List ℕ
slots_of slot_count [] = []
slots_of slot_count (c ∷ cs) = add_candidate slot_count c (slots_of slot_count cs)

abbrev pub exit_tags : List ℕ → List Tag
exit_tags slots = map (λ (k : ℕ). exit (pos k)) slots

-- The balancer of one subset, which needs two slots.
unfoldable pub emit_balancer : List ℕ → List Balancer
emit_balancer cur =
    if leb 2 (length cur) then record { tag = balancer cur; selector = exit_tags cur } ∷ [] else []

-- The loop of generateSubsets over the last `left` of the slots, with the calls that it makes.
unfoldable pub generate_subsets : ℕ → ℕ → List ℕ → List Balancer
unfolding emit_balancer
generate_subsets slot_count zero cur = []
generate_subsets slot_count (suc left) cur =
    let next = cur ++ ((slot_count - suc left) ∷ []) in
    emit_balancer next
    ++ (generate_subsets slot_count left next ++ generate_subsets slot_count left cur)

-- generateBalancers
unfoldable pub generate_balancers : ℕ → List Balancer
unfolding generate_subsets
generate_balancers slot_count =
    record { tag = other "vpn-balancer"; selector = exit_like "" ∷ [] }
    ∷ (emit_balancer [] ++ generate_subsets slot_count slot_count [])

-- The rule of an ingress for the candidate slots: none, one, or more.
unfoldable pub ingress_rule : String → String → String → List ℕ → Rule
ingress_rule rule_tag inbound port [] = record {
  rule_tag = rule_tag;
  inbound_tag = inbound;
  outbound_tag = block;
  balancer_tag = absent;
  port = port;
}
ingress_rule rule_tag inbound port (k ∷ []) = record {
  rule_tag = rule_tag;
  inbound_tag = inbound;
  outbound_tag = exit (pos k);
  balancer_tag = absent;
  port = port;
}
ingress_rule rule_tag inbound port (k ∷ l ∷ rest) = record {
  rule_tag = rule_tag;
  inbound_tag = inbound;
  outbound_tag = absent;
  balancer_tag = balancer (k ∷ l ∷ rest);
  port = port;
}

abbrev pub api_rule : Rule
api_rule = record {
  rule_tag = "";
  inbound_tag = "api";
  outbound_tag = api;
  balancer_tag = absent;
  port = "";
}

abbrev pub non_443_rule : Rule
non_443_rule = record {
  rule_tag = "vless-non-443-block";
  inbound_tag = "vless-in";
  outbound_tag = block;
  balancer_tag = absent;
  port = "";
}

-- The rules of applyCandidateRoutingLocked.
unfoldable pub vless_rules : Bool → Bool → List ℕ → List Rule
vless_rules false only443 slots = []
vless_rules true only443 slots =
    ingress_rule "active-balancer-rule-vless" "vless-in" (if only443 then "443" else "") slots
    ∷ (if only443 then non_443_rule ∷ [] else [])

unfoldable pub routing : ℕ → Bool → Bool → List ℕ → RoutingConfig
unfolding vless_rules generate_balancers ingress_rule
routing slot_count vless_enabled only443 slots = record {
  balancers = generate_balancers slot_count;
  rules =
      api_rule
      ∷ (vless_rules vless_enabled only443 slots
          ++ (ingress_rule "active-balancer-rule" "proxy" "" slots ∷ []));
}
