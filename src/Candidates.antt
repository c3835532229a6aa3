-- ===== src/Candidates.antt =====
-- internal/scheduler/region_selector.go: which node the scheduler tries next.
-- The rows of the database are a list in any order, so any order among equals is covered. SQL's UPPER
-- and LIKE, and the columns that only order quarantined nodes, are functions in `Columns`.
pub mod Order
pub mod Best
use super_proxy.Base.{
  ℕ, zero, suc, ◌+◌, ◌≤◌, String, Bool, true, false, ◌&&◌, ◌||◌, not, Option, none, some, List, [],
  ◌∷◌, if◌then◌else◌, ◌==◌, nat_eq, string_eq, ltb, is_some, contains, count, filter, Eq,
}
use super_proxy.Base.Assoc
use super_proxy.Base.Int.{ltb_ℤ}
use super_proxy.Models.{
  Status, status_eq, active, standby, qualified, healthy, reputation_checked, failed, Node,
}
use super_proxy.Scheduler.State.{Scheduler}
use super_proxy.Diversity.{Text, check_prefix_diversity}

pub record CandidateSelectionResult : Type 0 where
  pub node : Node
  pub qualified_capacity : ℕ
  pub required : ℕ
  pub fallback_enabled : Bool
  pub is_fallback_node : Bool
  pub quarantined_endpoint : Bool

pub data SelectionError : Type 0 where
  not_loaded exhausted : SelectionError

pub data Choice : Type 0 where
  refused : SelectionError → Choice
  selected : CandidateSelectionResult → Choice

-- What SQLite computes, and which of the three queries succeed.
pub record Columns : Type 0 where
  pub upper : String → String
  pub refused_by_reputation : String → Bool  -- LIKE 'discovery reputation admission:%'
  pub sessions : Node → ℕ
  pub total_traffic : Node → ℕ
  pub loads_capacity : Bool
  pub finds_candidates : Bool
  pub finds_quarantined : Bool

-- qualifiedCapacityStatuses and candidateSelectStatuses
abbrev pub qualified_capacity_statuses : List Status
qualified_capacity_statuses = active ∷ standby ∷ qualified ∷ healthy ∷ []

abbrev pub candidate_select_statuses : List Status
candidate_select_statuses = qualified ∷ healthy ∷ reputation_checked ∷ []

abbrev pub candidate_limit : ℕ
candidate_limit = 512

-- A sort that keeps the order of equals: ORDER BY for rows in any order.
module _ {ℓ} {A : Type ℓ} (before : A → A → Bool) where
  unfoldable pub insert_sorted : A → List A → List A
  insert_sorted x [] = x ∷ []
  insert_sorted x (y ∷ ys) =
      let rest = insert_sorted x ys in if before y x then y ∷ rest else x ∷ y ∷ ys

  unfoldable pub order_by : List A → List A
  unfolding insert_sorted
  order_by [] = []
  order_by (x ∷ xs) = insert_sorted x (order_by xs)

module _ {ℓ} {A : Type ℓ} where
  unfoldable pub take : ℕ → List A → List A
  take zero xs = []
  take (suc n) [] = []
  take (suc n) (x ∷ xs) = x ∷ take n xs

  unfoldable pub find : (A → Bool) → List A → Option A
  find p [] = none
  find p (x ∷ xs) = let rest = find p xs in if p x then some x else rest

-- ORDER BY status, with the higher score first.
abbrev pub status_rank : Status → ℕ
status_rank s = if s == qualified then 1 else if s == healthy then 2 else 3

unfoldable pub better : Node → Node → Bool
better a b =
    ltb (status_rank a.status) (status_rank b.status)
    || ((status_rank a.status == status_rank b.status) && ltb_ℤ b.score a.score)

abbrev bit : Bool → ℕ
bit b = if b then 1 else 0

-- The first pair of columns that differ decides.
unfoldable pub lexicographic : List (ℕ × ℕ) → Bool
lexicographic [] = false
lexicographic ((a, b) ∷ rest) = let later = lexicographic rest in ltb a b || ((a == b) && later)

module _ (db : Columns) where
  unfoldable pub probed_before : Node → Node → Bool
  unfolding lexicographic
  probed_before a b = lexicographic (
      (bit a.net_class.is_hosting, bit b.net_class.is_hosting)
      ∷ (bit a.net_class.is_tor, bit b.net_class.is_tor)
      ∷ (bit a.net_class.is_proxy, bit b.net_class.is_proxy)
      ∷ (bit a.net_class.is_vpn, bit b.net_class.is_vpn)
      ∷ (db.sessions b, db.sessions a)
      ∷ (db.total_traffic b, db.total_traffic a)
      ∷ [])

  abbrev pub in_region : String → Node → Bool
  in_region region node = (region == "") || (db.upper node.country == region)

  abbrev pub is_candidate : String → Node → Bool
  is_candidate region node = contains candidate_select_statuses node.status && in_region region node

  abbrev pub is_quarantined : String → Node → Bool
  is_quarantined region node =
      (node.status == failed)
      && node.reputation.is_blacklisted
      && db.refused_by_reputation node.last_error
      && (db.upper node.country == region)

  module _ (text : Text) (s : Scheduler) where
    -- discovery.GetOVPNSecret
    abbrev pub has_secret : Node → Bool
    has_secret node = is_some (Assoc.lookup node.id s.world.secrets)

    abbrev pub is_usable : Node → Bool
    is_usable node = has_secret node && not (is_some (check_prefix_diversity text s node "" none))

    -- What a node adds to the qualified capacity.
    abbrev pub is_capacity : String → Node → Bool
    is_capacity region node =
        contains qualified_capacity_statuses node.status
        && in_region region node
        && ((node.status == active) || (node.status == standby) || has_secret node)

    unfoldable pub pick_diverse_candidate : String → List Node → Option Node
    unfolding order_by take find
    pick_diverse_candidate region rows =
        find is_usable (take candidate_limit (order_by better (filter (is_candidate region) rows)))

    unfoldable pub pick_quarantined_candidate : String → List Node → Option Node
    unfolding order_by take find probed_before
    pick_quarantined_candidate region rows =
        find has_secret
          (take candidate_limit (order_by probed_before (filter (is_quarantined region) rows)))

    abbrev pub required_nodes : ℕ
    required_nodes = if s.max_active + s.max_standby == 0 then 5 else s.max_active + s.max_standby

    abbrev pub result_for : String → List Node → Bool → Node → CandidateSelectionResult
    result_for region rows quarantined node = record {
      node = node;
      qualified_capacity = count (is_capacity region) rows;
      required = required_nodes;
      fallback_enabled = false;
      is_fallback_node = false;
      quarantined_endpoint = quarantined;
    }

    -- The first query, and the second one, which is made only for a region.
    unfoldable pub candidate_found : String → List Node → Option Node
    unfolding pick_diverse_candidate
    candidate_found region rows =
        if db.finds_candidates then pick_diverse_candidate region rows else none

    unfoldable pub quarantined_found : String → List Node → Option Node
    unfolding pick_quarantined_candidate
    quarantined_found region rows =
        if not (region == "") && db.finds_quarantined
        then pick_quarantined_candidate region rows
        else none

    unfoldable pub select_for : String → List Node → Choice
    unfolding candidate_found quarantined_found
    select_for region rows = elim (candidate_found region rows) [
      | some node ↦ selected (result_for region rows false node)
      | none ↦ elim (quarantined_found region rows) [
        | some node ↦ selected (result_for region rows true node)
        | none ↦ refused exhausted
      ]
    ]

    -- SelectNextCandidate, for the configured primary region.
    unfoldable pub select_next_candidate : String → List Node → Choice
    unfolding select_for
    select_next_candidate primary rows =
        if db.loads_capacity
        then select_for (text.to_upper (text.trim_space primary)) rows
        else refused not_loaded
