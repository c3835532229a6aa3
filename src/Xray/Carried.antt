-- ===== src/Xray/Carried.antt =====
-- Where the routing of `Routing` sends a connection.
use super_proxy.Base.{
  ℕ, ◌<◌, ◌≤◌, ap, String, Bool, true, false, ◌&&◌, ◌||◌, not, Option, none, some, List, [], ◌∷◌,
  ◌==◌, nat_eq, string_eq, if◌then◌else◌, ◌≡◌, refl, arith, inl, inr, Bool-cases,
}
use super_proxy.Base.Int.{ℤ, pos, negsuc}
use super_proxy.Xray.{
  Tag, tag_beq, tag_eq, absent, block, balancer, int_eq, Balancer, Rule, RoutingConfig, tag_beq_iff,
}
use super_proxy.Xray.Routing.{
  add_slot, add_candidate, slots_of, generate_balancers, ingress_rule, non_443_rule, vless_rules,
  routing, exit_tags,
}
use super_proxy.Xray.Slots.{Ascending, slots_of-Ascending}
use super_proxy.Xray.Balancers.{exits_or_block, Below, generate_balancers-Found}
use super_proxy.Xray.Selectors.{destinations, selected_exits}

-- Whether a rule is about a connection, by its inbound and its port.
unfoldable pub is_about : String → String → Rule → Bool
is_about inbound port rule =
    (rule.inbound_tag == inbound) && ((rule.port == "") || (rule.port == port))

-- Where a connection goes, with n outbounds for exits: to the destinations of the first rule that is about it.
unfoldable pub first_destinations :
    ℕ → List Balancer → String → String → List Rule → Option (List Tag)
unfolding is_about destinations
first_destinations n balancers inbound port [] = none
first_destinations n balancers inbound port (rule ∷ rules) =
    let later = first_destinations n balancers inbound port rules in
    if is_about inbound port rule then destinations n balancers rule else later

unfoldable pub carried : ℕ → RoutingConfig → String → String → Option (List Tag)
unfolding first_destinations
carried n config inbound port = first_destinations n config.balancers inbound port config.rules

ingress_rule-destinations :
    (n : ℕ) (rule_tag inbound port : String) (slots : List ℕ)
    → Ascending slots
    → n ≤ 10
    → Below n slots
    → destinations n (generate_balancers n) (ingress_rule rule_tag inbound port slots)
      ≡ some (exits_or_block slots)
unfolding destinations ingress_rule
ingress_rule-destinations n rule_tag inbound port [] a few high =
    ground (arith, tag_beq_iff absent absent)
ingress_rule-destinations n rule_tag inbound port (k ∷ []) a few high =
    ground (arith, tag_beq_iff absent absent)
ingress_rule-destinations n rule_tag inbound port (k ∷ l ∷ rest) a few high = ground (
  arith,
  tag_beq_iff (balancer (k ∷ l ∷ rest)) absent,
  generate_balancers-Found n k l rest a high,
  ap exit_tags (selected_exits n (k ∷ l ∷ rest) few a high),
)

add_slot-Below : (n k : ℕ) (xs : List ℕ) → k < n → Below n xs → Below n (add_slot k xs)
unfolding add_slot
add_slot-Below n k [] h b = ground arith
add_slot-Below n k (x ∷ xs) h b = ground (arith, add_slot-Below n k xs h)

pub slots_of-Below : (n : ℕ) (cs : List ℤ) → Below n (slots_of n cs)
unfolding slots_of add_candidate
slots_of-Below n [] = tt
slots_of-Below n (pos k ∷ cs) =
    ground (arith, add_slot-Below n k (slots_of n cs), slots_of-Below n cs)
slots_of-Below n (negsuc k ∷ cs) = slots_of-Below n cs

ingress_rule-is_about :
    (rule_tag inbound port i p : String) (slots : List ℕ)
    → is_about i p (ingress_rule rule_tag inbound port slots)
      ≡ ((inbound == i) && ((port == "") || (port == p)))
unfolding is_about ingress_rule
ingress_rule-is_about rule_tag inbound port i p [] = refl
ingress_rule-is_about rule_tag inbound port i p (k ∷ []) = refl
ingress_rule-is_about rule_tag inbound port i p (k ∷ l ∷ rest) = refl

module _ (n : ℕ) (few : n ≤ 10) (only443 : Bool) where
  proxy_carried :
      (vless : Bool) (cs : List ℤ) (port : String)
      → carried n (routing n vless only443 (slots_of n cs)) "proxy" port
        ≡ some (exits_or_block (slots_of n cs))
  unfolding carried routing first_destinations vless_rules
  proxy_carried vless cs port =
      let slots = slots_of n cs in
      ground (
        arith,
        ingress_rule-is_about "active-balancer-rule" "proxy" "" "proxy" port slots,
        ingress_rule-is_about "active-balancer-rule-vless" "vless-in"
            (if only443 then "443" else "") "proxy" port slots,
        ingress_rule-destinations n "active-balancer-rule" "proxy" "" slots
            (slots_of-Ascending n cs) few (slots_of-Below n cs),
      )

non_443-blocks : (n : ℕ) (bs : List Balancer) → destinations n bs non_443_rule ≡ some (block ∷ [])
unfolding destinations tag_beq
non_443-blocks n bs = refl

vless_carried :
    (n : ℕ) (few : n ≤ 10) (only443 : Bool) (cs : List ℤ) (port : String)
    → carried n (routing n true only443 (slots_of n cs)) "vless-in" port
      ≡ some (if only443 && not ("443" == port) then block ∷ [] else exits_or_block (slots_of n cs))
unfolding carried routing first_destinations vless_rules
vless_carried n few false cs port =
    let slots = slots_of n cs in
    rw (ingress_rule-is_about "active-balancer-rule-vless" "vless-in" "" "vless-in" port slots) (
      ingress_rule-destinations n "active-balancer-rule-vless" "vless-in" "" slots
        (slots_of-Ascending n cs) few (slots_of-Below n cs))
vless_carried n few true cs port =
    let slots = slots_of n cs in
    rw (ingress_rule-is_about "active-balancer-rule-vless" "vless-in" "443" "vless-in" port slots)
      (elim (Bool-cases ("443" == port)) [
        | inl p ↦ rw p (
            ingress_rule-destinations n "active-balancer-rule-vless" "vless-in" "443" slots
              (slots_of-Ascending n cs) few (slots_of-Below n cs))
        | inr p ↦ rw p (non_443-blocks n (generate_balancers n))
      ])

-- With at most ten slots, and the routing that is made for any list of candidate slots, a connection to the local proxy goes to
-- the outbounds of exactly the candidates that are slots of the supervisor, or is blocked where there is
-- none; so does a connection to VLESS, if that is enabled, except that it is blocked where only port 443
-- is let through and it has another port. Xray is taken to select
-- every outbound whose tag begins with a text of the selector.
pub routing-carried :
    (n : ℕ) (only443 vless : Bool) (cs : List ℤ) (port : String)
    → n ≤ 10
    → let slots = slots_of n cs in
      (carried n (routing n vless only443 slots) "proxy" port ≡ some (exits_or_block slots))
      × (carried n (routing n true only443 slots) "vless-in" port
          ≡ some (if only443 && not ("443" == port) then block ∷ [] else exits_or_block slots))
routing-carried n only443 vless cs port few =
    (proxy_carried n few only443 vless cs port, vless_carried n few only443 cs port)
