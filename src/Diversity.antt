-- ===== src/Diversity.antt =====
-- AnalyzePrefix of internal/reputation/prefix.go and internal/scheduler/diversity.go: no two tunnels
-- in service share an IPv4 /24.
-- Go's text functions are the interface `Text`. The map of prefixes keeps its keys as byte triples,
-- whose printed form "a.b.c.0/24" is what the program uses; the empty prefix is `none`.
pub mod Sound
use super_proxy.Base.{
  ℕ, String, Bool, true, false, ◌&&◌, ◌||◌, not, Option, none, some, List, [], ◌∷◌, ◌++◌, map,
  if◌then◌else◌, ◌==◌, nat_eq, string_eq, is_some, Eq, ◌≡◌, ◌↔◌, arith,
}
use super_proxy.Base.Assoc
use super_proxy.Models.{Node}
use super_proxy.Scheduler.State.{Scheduler}

-- net.IP: four bytes, or an IPv6 address that maps none.
pub data Ip : Type 0 where
  v4 : ℕ → ℕ → ℕ → ℕ → Ip
  v6 : String → Ip

-- What the program uses of strings and net.
pub record Text : Type 0 where
  pub trim_space : String → String
  pub to_upper : String → String
  pub parse_ip : String → Option Ip

pub record Prefix : Type 0 where
  pub first : ℕ
  pub second : ℕ
  pub third : ℕ

abbrev pub prefix_beq : Prefix → Prefix → Bool
prefix_beq p q = (p.first == q.first) && (p.second == q.second) && (p.third == q.third)

pub prefix_beq_iff : (p q : Prefix) → (prefix_beq p q ≡ true) ↔ (p ≡ q)
prefix_beq_iff p q = ground arith

instance abbrev pub prefix_eq : Eq Prefix
prefix_eq = record { beq = prefix_beq; beq_iff = prefix_beq_iff }

pub data DiversityError : Type 0 where
  no_prefix shared_prefix : DiversityError

module _ (text : Text) where
  -- AnalyzePrefix
  unfoldable pub analyze_prefix : String → Option Prefix
  analyze_prefix ip = elim (text.parse_ip ip) [
    | none ↦ none
    | some (v4 a b c d) ↦ some (record { first = a; second = b; third = c })
    | some (v6 a) ↦ none
  ]

  unfoldable pub add_prefix : String → List (Prefix × String) → List (Prefix × String)
  add_prefix raw result =
      let ip = text.trim_space raw in
      elim (analyze_prefix ip) [ none ↦ result | some prefix ↦ Assoc.insert prefix ip result ]

  -- nodePrefixes
  unfoldable pub node_prefixes : Node → String → List (Prefix × String)
  node_prefixes node extra_ip =
      add_prefix extra_ip (add_prefix node.observed_exit_ip (add_prefix node.ip []))

  -- The loop of prefixConflict over the candidate's prefixes.
  unfoldable pub any_shared : List (Prefix × String) → List (Prefix × String) → Bool
  any_shared [] existing = false
  any_shared ((prefix, ip) ∷ rest) existing =
      is_some (Assoc.lookup prefix existing) || any_shared rest existing

  -- prefixConflict
  unfoldable pub prefix_conflict : Node → List (Prefix × String) → Node → Bool
  prefix_conflict candidate prefixes other =
      not (other.id == candidate.id) && any_shared prefixes (node_prefixes other "")

  unfoldable pub any_conflict : Node → List (Prefix × String) → List Node → Bool
  any_conflict candidate prefixes [] = false
  any_conflict candidate prefixes (other ∷ rest) =
      prefix_conflict candidate prefixes other || any_conflict candidate prefixes rest

abbrev pub is_empty {ℓ} : {A : Type ℓ} → List A → Bool
is_empty [] = true
is_empty (x ∷ xs) = false

-- The nodes of the tunnels in service, but for the slot that is left out; `none` leaves out none.
unfoldable pub active_nodes : Scheduler → Option ℕ → List (ℕ × ℕ) → List Node
active_nodes s exclude [] = []
active_nodes s exclude ((slot, t) ∷ rest) =
    let others = active_nodes s exclude rest in
    elim exclude [
      | none ↦ (s.tunnels t).node ∷ others
      | some left_out ↦ if slot == left_out then others else (s.tunnels t).node ∷ others
    ]

unfoldable pub in_service : Scheduler → Option ℕ → List Node
unfolding active_nodes
in_service s exclude =
    active_nodes s exclude s.active_slots ++ map (λ t. (s.tunnels t).node) s.standby_nodes

-- CheckPrefixDiversityLocked, for a candidate that is there.
unfoldable pub check_prefix_diversity :
    Text → Scheduler → Node → String → Option ℕ → Option DiversityError
check_prefix_diversity text s candidate observed_ip exclude =
    let prefixes = node_prefixes text candidate observed_ip in
    if is_empty prefixes
    then some no_prefix
    else if any_conflict text candidate prefixes (in_service s exclude)
    then some shared_prefix
    else none
