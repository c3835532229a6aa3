-- ===== src/Region/Fallback.antt =====
-- What a filtered list of nodes holds.
use super_proxy.Base.{
  ℕ, ltb, Bool, not, ◌&&◌, List, [], ◌∷◌, ◌++◌, if◌then◌else◌, string_eq, length, filter, ◌≡◌, refl,
  ap, arith,
}
use super_proxy.Models.{Node}
use super_proxy.Diversity.{Text}
use super_proxy.Region.{RegionConfig, is_primary, in_fallback, sort_out, filter_nodes}

append_empty : (nodes : List Node) → nodes ++ [] ≡ nodes
append_empty [] = refl
append_empty (node ∷ rest) = ap (λ l. node ∷ l) (append_empty rest)

module _ (text : Text) (cfg : RegionConfig) where
  -- A node of a fallback region that is not the primary one.
  abbrev pub is_second : Node → Bool
  is_second node = not (is_primary text cfg node) && in_fallback text cfg node

  sort_out_lem :
      (nodes : List Node)
      → sort_out text cfg nodes ≡ (filter (is_primary text cfg) nodes, filter is_second nodes)
  unfolding sort_out
  sort_out_lem [] = refl
  sort_out_lem (node ∷ rest) = ground (arith, sort_out_lem rest)

  -- The nodes of the primary region in their order, and after them, exactly when they are fewer than
  -- required, those of the fallback regions in theirs; no other region's.
  pub filter_nodes_lem :
      (nodes : List Node) (min_required : ℕ)
      → let primary_nodes = filter (is_primary text cfg) nodes in
        filter_nodes text cfg nodes min_required
        ≡ primary_nodes
          ++ (if ltb (length primary_nodes) min_required then filter is_second nodes else [])
  unfolding filter_nodes
  filter_nodes_lem nodes min_required =
      let primary_nodes = filter (is_primary text cfg) nodes in
      ground (arith, sort_out_lem nodes, append_empty primary_nodes)
