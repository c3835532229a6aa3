-- ===== src/Candidates/Best.antt =====
-- SelectNextCandidate of internal/scheduler/region_selector.go selects the best candidate there is.
use mathlib.Core.List.{Memᴰ}
use super_proxy.Base.{
  String, ◌≡◌, ◌⊎◌, inl, inr, refl, Bool, true, false, ◌&&◌, not, Option, none, some, List,
  if◌then◌else◌, ◌==◌, string_eq, nat_eq, All, arith, subst, if_either,
}
use super_proxy.Models.{Node}
use super_proxy.Scheduler.State.{Scheduler}
use super_proxy.Diversity.{Text}
use super_proxy.Candidates.{
  CandidateSelectionResult, Choice, selected, refused, exhausted, Columns, candidate_limit, better,
  is_candidate, is_quarantined, has_secret, is_usable, pick_diverse_candidate,
  pick_quarantined_candidate, candidate_found, quarantined_found, result_for, select_for,
  select_next_candidate, probed_before,
}
use super_proxy.Candidates.Order.{find-among, find-best}

better_irreflexive : (a : Node) → better a a ≡ false
unfolding better
better_irreflexive a = ground arith

better_asymmetric : (a b : Node) → better a b ≡ true → better b a ≡ false
unfolding better
better_asymmetric a b h = ground arith

better_negatively_transitive :
    (a b c : Node) → better a b ≡ false → better b c ≡ false → better a c ≡ false
unfolding better
better_negatively_transitive a b c hab hbc = ground arith

when_some :
    (b : Bool) (o : Option Node) (a : Node)
    → (if b then o else none) ≡ some a
    → (b ≡ true) × (o ≡ some a)
when_some true o a e = (refl, e)
when_some false o a e = cc e

module _ (db : Columns) (text : Text) (s : Scheduler) (region : String) (rows : List Node) where
  -- A candidate, that no other one with credentials and a /24 of its own is better than.
  abbrev pub IsBest : Node → Type 0
  IsBest node =
      (is_candidate db region node ≡ true)
      × (is_usable db text s node ≡ true)
      × All (λ m. (is_candidate db region m && (is_usable db text s m && better m node)) ≡ false)
          rows

  -- A node of the region that discovery refused by reputation, with credentials.
  abbrev pub IsProbe : Node → Type 0
  IsProbe node =
      ((region == "") ≡ false)
      × (is_quarantined db region node ≡ true)
      × (has_secret db text s node ≡ true)
      × (candidate_found db text s region rows ≡ none)

  abbrev pub IsSelected : CandidateSelectionResult → Type 0
  IsSelected r =
      Memᴰ r.node rows
      × (((r.quarantined_endpoint ≡ false) × IsBest r.node)
          ⊎ ((r.quarantined_endpoint ≡ true) × IsProbe r.node))

  abbrev IfSelected : Choice → Type 0
  IfSelected (refused e) = Unit
  IfSelected (selected r) = IsSelected r

  best_of :
      (node : Node)
      → candidate_found db text s region rows ≡ some node
      → IsSelected (result_for db text s region rows false node)
  unfolding candidate_found pick_diverse_candidate
  best_of node e =
      let found =
        (when_some db.finds_candidates (pick_diverse_candidate db text s region rows) node e).1 in
      let among =
        find-among better (is_candidate db region) (is_usable db text s) candidate_limit node rows
          found in
      (
        among.0,
        inl (
          refl,
          (
            among.1,
            among.2,
            find-best better better_irreflexive better_asymmetric better_negatively_transitive
                (is_candidate db region) (is_usable db text s) candidate_limit node rows found,
          ),
        ),
      )

  probe_of :
      (node : Node)
      → candidate_found db text s region rows ≡ none
      → quarantined_found db text s region rows ≡ some node
      → IsSelected (result_for db text s region rows true node)
  unfolding quarantined_found pick_quarantined_candidate
  probe_of node no_other e =
      let found =
        when_some (not (region == "") && db.finds_quarantined)
          (pick_quarantined_candidate db text s region rows) node e in
      let among =
        find-among (probed_before db) (is_quarantined db region) (has_secret db text s)
          candidate_limit node rows found.1 in
      (among.0, inr (refl, (ground (arith, found.0), among.1, among.2, no_other)))

  second_choice :
      (o : Option Node)
      → quarantined_found db text s region rows ≡ o
      → candidate_found db text s region rows ≡ none
      → IfSelected (elim o [
        | some node ↦ selected (result_for db text s region rows true node)
        | none ↦ refused exhausted
      ])
  second_choice none e no_other = tt
  second_choice (some node) e no_other = probe_of node no_other e

  first_choice :
      (o : Option Node)
      → candidate_found db text s region rows ≡ o
      → IfSelected (elim o [
        | some node ↦ selected (result_for db text s region rows false node)
        | none ↦ elim (quarantined_found db text s region rows) [
          | some node ↦ selected (result_for db text s region rows true node)
          | none ↦ refused exhausted
        ]
      ])
  first_choice none e = second_choice (quarantined_found db text s region rows) refl e
  first_choice (some node) e = best_of node e

  select_for-IsSelected : IfSelected (select_for db text s region rows)
  unfolding select_for
  select_for-IsSelected = first_choice (candidate_found db text s region rows) refl

-- A node that is selected is a row of the database. Either its status is selectable and its country is
-- the primary region (if there is one), its credentials are at hand, its addresses share no /24 with the
-- tunnels in service, and no other row of which all this holds has a better status, or as good a status
-- and a higher score. Or it is marked as quarantined: no such candidate was found, there is a primary
-- region, and the node is one of that region that discovery refused by reputation, with credentials.
pub select_next_candidate-IsSelected :
    (db : Columns) (text : Text) (s : Scheduler) (primary : String) (rows : List Node)
    (r : CandidateSelectionResult)
    → select_next_candidate db text s primary rows ≡ selected r
    → IsSelected db text s (text.to_upper (text.trim_space primary)) rows r
unfolding select_next_candidate
select_next_candidate-IsSelected db text s primary rows r e =
    subst (λ c. IfSelected db text s (text.to_upper (text.trim_space primary)) rows c) e
      (if_either (IfSelected db text s (text.to_upper (text.trim_space primary)) rows)
        db.loads_capacity
        (select_for-IsSelected db text s (text.to_upper (text.trim_space primary)) rows) tt)
