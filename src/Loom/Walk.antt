-- ===== src/Loom/Walk.antt =====
-- The walks over a loom's tree in routes/loom.py: the prefix of a node, and a subtree's ids.
use mathlib.Core.List.{reverse}
use acs_base_model_api.Base.{
  ℕ, zero, suc, ◌+◌, Bool, true, false, ◌&&◌, ◌||◌, Option, none, some, List, [], ◌∷◌, ◌++◌, String,
  nat_eq, string_eq, ◌==◌, if◌then◌else◌,
}
use acs_base_model_api.Base.Lists.{length, contains}
use acs_base_model_api.Base.Text.{Text}
use acs_base_model_api.Loom.Node.{LoomNode, find_node, is_parent}

-- "".join
unfoldable pub join : List Text → Text
join [] = []
join (t ∷ ts) = t ++ join ts

-- The `while` of `_loom_prefix_for_node`: the texts of the chain, the node's own first. Fuel bounds
-- the rounds, and `none` means that it ran out.
unfoldable pub walk_up : ℕ → List LoomNode → List ℕ → Option ℕ → List Text → Option (List Text)
walk_up zero nodes seen cur chain = none
walk_up (suc fuel) nodes seen none chain = some chain
walk_up (suc fuel) nodes seen (some id) chain =
    if contains id seen then some chain else elim (find_node nodes id) [
      | none ↦ some chain
      | some nd ↦ walk_up fuel nodes (id ∷ seen) nd.parent_id (chain ++ nd.text ∷ [])
    ]

-- a round for each node, and one to stop
abbrev pub walk_fuel : List LoomNode → ℕ
walk_fuel nodes = length nodes + 1

unfoldable pub loom_prefix_for_node : List LoomNode → ℕ → Option Text
loom_prefix_for_node nodes id = elim (walk_up (walk_fuel nodes) nodes [] (some id) []) [
  | none ↦ none
  | some chain ↦ some (join (reverse chain))
]

-- `children.get(id, [])` of the map that `_subtree_ids` builds
unfoldable pub children : List LoomNode → ℕ → List ℕ
children [] p = []
children (nd ∷ nds) p = if is_parent p nd then nd.id ∷ children nds p else children nds p

-- The `while stack` of `_subtree_ids`; the top of the stack is the head of the list, so children
-- are pushed in reverse.
unfoldable pub visit : ℕ → List LoomNode → List ℕ → List ℕ → List ℕ
visit zero nodes subtree stack = subtree
visit (suc fuel) nodes subtree [] = subtree
visit (suc fuel) nodes subtree (id ∷ stack) = elim (contains id subtree) [
  | true ↦ visit fuel nodes subtree stack
  | false ↦ visit fuel nodes (id ∷ subtree) (reverse (children nodes id) ++ stack)
]

-- a round for the root, one for each node that is pushed, and one to stop
unfoldable pub subtree_ids : List LoomNode → ℕ → List ℕ
subtree_ids nodes root = visit (length nodes + 2) nodes [] (root ∷ [])

-- an entry of `app.state.loom_generations`
pub record Generation : Type 0 where
  pub loom_id : ℕ
  pub status : String
  pub parent_id : ℕ

unfoldable pub running_gen_in_subtree : List Generation → ℕ → List ℕ → Bool
running_gen_in_subtree [] loom_id subtree = false
running_gen_in_subtree (g ∷ gs) loom_id subtree =
    (g.loom_id == loom_id && (g.status == "running" && contains g.parent_id subtree))
    || running_gen_in_subtree gs loom_id subtree
