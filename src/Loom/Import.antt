-- ===== src/Loom/Import.antt =====
-- The node passes of `loom_import` in routes/loom.py: new ids, parent links, broken cycles. The new
-- loom's row and its title and model are left out; the database's fresh ids are an argument.
use acs_base_model_api.Base.{
  ℕ, zero, suc, ◌+◌, Bool, true, false, Option, none, some, List, [], ◌∷◌, nat_eq, ◌==◌,
  if◌then◌else◌,
}
use acs_base_model_api.Base.Json.{ℤ, pos, Json, Items, Fields, text_eq, get_field}
use acs_base_model_api.Base.Lists.{length, contains, take}
use acs_base_model_api.Base.Text.{Text, codes}
use acs_base_model_api.Loom.Node.{LoomNode, find_node}
use acs_base_model_api.Loom.Edit.{update_node}

-- a created node and the raw `parent_id` of its entry
pub record Created : Type 0 where
  pub node : LoomNode
  pub old_parent : Json

-- `id_map`: the last entry for an old id counts
abbrev pub IdMap : Type 0
IdMap = List (Text × ℕ)

unfoldable pub map_get : Text → IdMap → Option ℕ
map_get old [] = none
map_get old ((k, id) ∷ m) = if text_eq k old then some id else map_get old m

-- the fields of an entry, each kept only where it has the right type
abbrev pub text_of : Json → Text
text_of (Json.str t) = t
text_of _ = []

abbrev pub model_of : Json → Option Text
model_of (Json.str t) = some (take 200 t)
model_of _ = none

abbrev pub seed_of : Json → Option ℤ
seed_of (Json.int i) = some i
seed_of _ = none

abbrev pub position_of : ℕ → Json → ℤ
position_of idx (Json.int i) = i
position_of idx _ = pos idx

abbrev pub logprobs_of : Json → Option Items
logprobs_of (Json.arr items) = some items
logprobs_of _ = none

abbrev pub imported_node : ℕ → ℕ → ℕ → ℕ → Fields → LoomNode
imported_node loom_id now id idx raw = record {
  id = id;
  loom_id = loom_id;
  parent_id = none;
  text = text_of (get_field (codes "text") raw);
  model = model_of (get_field (codes "model") raw);
  seed = seed_of (get_field (codes "seed") raw);
  position = position_of idx (get_field (codes "position") raw);
  logprobs = logprobs_of (get_field (codes "logprobs") raw);
  created_at = now;
}

abbrev pub remember : Json → ℕ → IdMap → IdMap
remember (Json.str old) id m = (old, id) ∷ m
remember _ id m = m

-- Pass 1: an entry that is no object is skipped, but counted in the positions. `fresh idx` is the id
-- of the node made from entry `idx`.
unfoldable pub create_nodes : ℕ → ℕ → (ℕ → ℕ) → ℕ → Items → IdMap → IdMap × List Created
create_nodes loom_id now fresh idx Items.end m = (m, [])
create_nodes loom_id now fresh idx (Items.item (Json.obj raw) items) m =
    let nd = imported_node loom_id now (fresh idx) idx raw in
    let (m', rest) =
      create_nodes loom_id now fresh (idx + 1) items
        (remember (get_field (codes "id") raw) nd.id m) in
    (m', record { node = nd; old_parent = get_field (codes "parent_id") raw } ∷ rest)
create_nodes loom_id now fresh idx (Items.item _ items) m =
    create_nodes loom_id now fresh (idx + 1) items m

unfoldable pub intended_roots : List Created → List ℕ
intended_roots [] = []
intended_roots (c ∷ cs) = elim c.old_parent [
  | Json.null ↦ c.node.id ∷ intended_roots cs
  | _ ↦ intended_roots cs
]

-- the sole intended root
unfoldable pub fallback_root : List Created → Option ℕ
unfolding intended_roots
fallback_root cs = elim (intended_roots cs) [
  | [] ↦ none
  | r ∷ rs ↦ elim rs [ [] ↦ some r | _ ∷ _ ↦ none ]
]

-- a dangling link goes to the sole root, but for that root itself
abbrev pub rehome : Option ℕ → LoomNode → LoomNode
rehome none nd = nd
rehome (some r) nd = if nd.id == r then nd else record nd { parent_id = some r }

-- Pass 2
abbrev pub rewire_one : IdMap → Option ℕ → Created → LoomNode
rewire_one m fallback c = elim c.old_parent [
  | Json.null ↦ c.node
  | Json.str old ↦ elim (map_get old m) [
    | some p ↦ record c.node { parent_id = some p }
    | none ↦ rehome fallback c.node
  ]
  | _ ↦ rehome fallback c.node
]

unfoldable pub rewire : IdMap → Option ℕ → List Created → List LoomNode
rewire m fallback [] = []
rewire m fallback (c ∷ cs) = rewire_one m fallback c ∷ rewire m fallback cs

-- The `while` of pass 3, from a node: whether it comes back to an id that it has seen. Fuel bounds
-- the rounds.
unfoldable pub loops : ℕ → List LoomNode → List ℕ → ℕ → Bool
loops zero nodes seen cur = false
loops (suc fuel) nodes seen cur = elim (find_node nodes cur) [
  | none ↦ false
  | some nd ↦ elim nd.parent_id [
    | none ↦ false
    | some p ↦ if contains cur seen then true else loops fuel nodes (cur ∷ seen) p
  ]
]

abbrev pub make_root : LoomNode → LoomNode
make_root nd = record nd { parent_id = none }

-- Pass 3, over the created ids in order: a node that cannot reach a root becomes one.
unfoldable pub break_cycles : List ℕ → List LoomNode → List LoomNode
break_cycles [] nodes = nodes
break_cycles (id ∷ ids) nodes =
    if loops (length nodes + 2) nodes [] id
    then break_cycles ids (update_node id make_root nodes)
    else break_cycles ids nodes

abbrev pub created_ids : List Created → List ℕ
created_ids [] = []
created_ids (c ∷ cs) = c.node.id ∷ created_ids cs

unfoldable pub import_nodes : ℕ → ℕ → (ℕ → ℕ) → Items → List LoomNode
unfolding rewire fallback_root
import_nodes loom_id now fresh raw_nodes =
    let (id_map, created) = create_nodes loom_id now fresh 0 raw_nodes [] in
    break_cycles (created_ids created) (rewire id_map (fallback_root created) created)
