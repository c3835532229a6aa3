-- ===== src/Diversity/Sound.antt =====
-- What an accepted candidate can rely on.
use super_proxy.Base.{
  ℕ, String, true, false, Option, none, some, List, [], ◌∷◌, ◌==◌, nat_eq, string_eq, is_some, ◌≡◌,
  ◌↔◌, ◌⊎◌, inl, inr, arith, All, Bool-cases, Option-cases, refl,
}
use super_proxy.Base.Assoc
use super_proxy.Models.{Node}
use super_proxy.Scheduler.State.{Scheduler}
use super_proxy.Diversity.{
  Text, Prefix, prefix_eq, analyze_prefix, add_prefix, node_prefixes, any_shared, prefix_conflict,
  any_conflict, in_service, check_prefix_diversity,
}

module _ (text : Text) where
  -- An address lies in a prefix.
  abbrev pub Lies : String → Prefix → Type 0
  Lies raw p = analyze_prefix text (text.trim_space raw) ≡ some p

  -- A node uses a prefix, by its endpoint, its known exit or one more address.
  abbrev pub Uses : Node → String → Prefix → Type 0
  Uses node extra p = Lies node.ip p ⊎ (Lies node.observed_exit_ip p ⊎ Lies extra p)

  lookup-add_prefix :
      (raw : String) (m : List (Prefix × String)) (p : Prefix)
      → (is_some (Assoc.lookup p (add_prefix text raw m)) ≡ true)
        ↔ ((is_some (Assoc.lookup p m) ≡ true) ⊎ Lies raw p)
  unfolding add_prefix
  lookup-add_prefix raw m p = elim (Option-cases (analyze_prefix text (text.trim_space raw))) [
    | inl e ↦ ground (arith, e)
    | inr (q, e) ↦
        ground (arith, e, Assoc.lookup-insert q p (text.trim_space raw) m, prefix_eq.beq_iff q p)
  ]

  -- The map of a node has exactly the prefixes that the node uses.
  node_prefixes-Uses :
      (node : Node) (extra : String) (p : Prefix)
      → (is_some (Assoc.lookup p (node_prefixes text node extra)) ≡ true) ↔ Uses node extra p
  unfolding node_prefixes Assoc.lookup
  node_prefixes-Uses node extra p =
      let one = add_prefix text node.ip [] in
      let two = add_prefix text node.observed_exit_ip one in
      ground (
        arith,
        lookup-add_prefix node.ip [] p,
        lookup-add_prefix node.observed_exit_ip one p,
        lookup-add_prefix extra two p,
      )

  -- A shared key is found from either map.
  any_shared-finds :
      (mine theirs : List (Prefix × String)) (p : Prefix)
      → is_some (Assoc.lookup p mine) ≡ true
      → is_some (Assoc.lookup p theirs) ≡ true
      → any_shared text mine theirs ≡ true
  unfolding any_shared Assoc.lookup
  any_shared-finds [] theirs p h k = cc
  any_shared-finds ((q, ip) ∷ rest) theirs p h k =
      ground (arith, any_shared-finds rest theirs p, prefix_eq.beq_iff q p)

  -- The two nodes are one, or have no /24 in common.
  abbrev pub Apart : Node → Node → String → Type 0
  Apart other candidate observed =
      (other.id ≡ candidate.id) ⊎ ((p : Prefix) → Uses candidate observed p → ¬ Uses other "" p)

  conflict-Apart :
      (candidate other : Node) (observed : String)
      → prefix_conflict text candidate (node_prefixes text candidate observed) other ≡ false
      → Apart other candidate observed
  unfolding prefix_conflict
  conflict-Apart candidate other observed h = elim (Bool-cases (other.id == candidate.id)) [
    | inl same ↦ inl ((string_eq.beq_iff other.id candidate.id).0 same)
    | inr differ ↦ inr λ p mine theirs. ground (
      arith,
      any_shared-finds (node_prefixes text candidate observed) (node_prefixes text other "") p
          ((node_prefixes-Uses candidate observed p).1 mine)
          ((node_prefixes-Uses other "" p).1 theirs),
    )
  ]

  any_conflict-Apart :
      (candidate : Node) (observed : String) (nodes : List Node)
      → any_conflict text candidate (node_prefixes text candidate observed) nodes ≡ false
      → All (λ other. Apart other candidate observed) nodes
  unfolding any_conflict
  any_conflict-Apart candidate observed [] h = tt
  any_conflict-Apart candidate observed (other ∷ rest) h = (
    conflict-Apart candidate other observed (ground arith),
    any_conflict-Apart candidate observed rest (ground arith),
  )

  -- A candidate that passes the check shares no /24, by its endpoint, its exit or the observed
  -- address, with the endpoint or the exit of any other node that serves a slot (but for the slot left
  -- out) or stands by.
  pub accepted-Apart :
      (s : Scheduler) (candidate : Node) (observed : String) (exclude : Option ℕ)
      → check_prefix_diversity text s candidate observed exclude ≡ none
      → All (λ other. Apart other candidate observed) (in_service s exclude)
  unfolding check_prefix_diversity
  accepted-Apart s candidate observed exclude h =
      any_conflict-Apart candidate observed (in_service s exclude) (ground arith)

  any_shared-holds :
      (mine theirs : List (Prefix × String))
      → any_shared text mine theirs ≡ true
      → (p : Prefix) × (is_some (Assoc.lookup p mine) ≡ true)
        × (is_some (Assoc.lookup p theirs) ≡ true)
  unfolding any_shared Assoc.lookup
  any_shared-holds [] theirs h = cc
  any_shared-holds ((q, ip) ∷ rest) theirs h = elim (Bool-cases (is_some (Assoc.lookup q theirs))) [
    | inl here ↦ (q, ground (arith, prefix_eq.beq_iff q q), here)
    | inr not_here ↦
        let (p, m, t) = any_shared-holds rest theirs (ground arith) in (p, ground arith, t)
  ]

  unshared :
      (other candidate : Node) (observed : String)
      → Apart other candidate observed
      → any_shared text (node_prefixes text candidate observed) (node_prefixes text other "") ≡ true
      → other.id ≡ candidate.id
  unshared other candidate observed (inl same) h = same
  unshared other candidate observed (inr apart) h =
      let (p, mine, theirs) = any_shared-holds _ _ h in
      absurd (
        apart p ((node_prefixes-Uses candidate observed p).0 mine)
          ((node_prefixes-Uses other "" p).0 theirs))

  any_conflict-holds :
      (candidate : Node) (observed : String) (nodes : List Node)
      → All (λ other. Apart other candidate observed) nodes
      → any_conflict text candidate (node_prefixes text candidate observed) nodes ≡ false
  unfolding any_conflict prefix_conflict
  any_conflict-holds candidate observed [] a = refl
  any_conflict-holds candidate observed (other ∷ rest) a = ground (
    arith,
    any_conflict-holds candidate observed rest a.1,
    string_eq.beq_iff other.id candidate.id,
    λ (h : any_shared text (node_prefixes text candidate observed) (node_prefixes text other "")
          ≡ true).
        unshared other candidate observed a.0 h,
  )

  -- The check turns nobody away without cause: a candidate with an IPv4 address that is apart from all
  -- others in service passes.
  pub Apart-accepted :
      (s : Scheduler) (candidate : Node) (observed : String) (exclude : Option ℕ) (p : Prefix)
      → Uses candidate observed p
      → All (λ other. Apart other candidate observed) (in_service s exclude)
      → check_prefix_diversity text s candidate observed exclude ≡ none
  unfolding check_prefix_diversity Assoc.lookup
  Apart-accepted s candidate observed exclude p mine a = ground (
    arith,
    any_conflict-holds candidate observed (in_service s exclude) a,
    (node_prefixes-Uses candidate observed p).1 mine,
  )
