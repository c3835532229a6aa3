-- ===== src/Region.antt =====
-- internal/region/filter.go: the nodes of the primary region, and those of the fallback regions when
-- there are too few.
pub mod Fallback
use super_proxy.Base.{
  ℕ, String, Bool, List, [], ◌∷◌, ◌++◌, map, if◌then◌else◌, ◌==◌, string_eq, leb, length, contains,
}
use super_proxy.Models.{Node}
use super_proxy.Diversity.{Text}

-- config.RegionConfig
pub record RegionConfig : Type 0 where
  pub primary : String
  pub fallback : List String

module _ (text : Text) (cfg : RegionConfig) where
  abbrev pub is_primary : Node → Bool
  is_primary node = text.to_upper node.country == text.to_upper cfg.primary

  abbrev pub in_fallback : Node → Bool
  in_fallback node = contains (map text.to_upper cfg.fallback) (text.to_upper node.country)

  -- The loop over the nodes: the primary ones and the fallback ones, each in order.
  unfoldable pub sort_out : List Node → List Node × List Node
  sort_out [] = ([], [])
  sort_out (node ∷ rest) =
      let (primary_nodes, fallback_nodes) = sort_out rest in
      if is_primary node
      then (node ∷ primary_nodes, fallback_nodes)
      else if in_fallback node
      then (primary_nodes, node ∷ fallback_nodes)
      else (primary_nodes, fallback_nodes)

  -- FilterNodes; a negative minimum is 0 here.
  unfoldable pub filter_nodes : List Node → ℕ → List Node
  unfolding sort_out
  filter_nodes nodes min_required =
      let (primary_nodes, fallback_nodes) = sort_out nodes in
      if leb min_required (length primary_nodes)
      then primary_nodes
      else primary_nodes ++ fallback_nodes
