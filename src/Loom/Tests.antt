-- ===== src/Loom/Tests.antt =====
-- A concrete loom for the handlers of routes/loom.py: a root, its child and a grandchild.
use acs_base_model_api.Base.{
  ℕ, suc, inl, ◌≡◌, refl, Option, none, some, List, [], ◌∷◌, arith, nat_eq, string_eq, ◌↔◌,
}
use acs_base_model_api.Base.Json.{Json, Items, Fields, pos}
use acs_base_model_api.Base.Text.{Text, codes}
use acs_base_model_api.Base.Lists.{All}
use acs_base_model_api.Base.Sort.{sort_by}
use acs_base_model_api.Loom.Node.{
  LoomNode, Store, find_node, find_loom, get_owned_loom, loom_nodes, next_sibling_position,
  max_position,
}
use acs_base_model_api.Loom.Walk.{
  loom_prefix_for_node, subtree_ids, visit, children, running_gen_in_subtree,
}
use acs_base_model_api.Loom.Edit.{
  Request, Cascade, with_loom, loom_split_node, split_rows, tail_child, keep_head, loom_edit_node,
}
use acs_base_model_api.Loom.Command.{delete_node, edit_node, handle}
use acs_base_model_api.Loom.Context.{Context, root, below, loom_prefix_for_node-Context}
use acs_base_model_api.Loom.Prefix.{moved, split_keeps_prefixes, AllOf}
use acs_base_model_api.Loom.Guards.{refused_keeps_rows, busy_keeps_rows, Refuses}
use acs_base_model_api.Loom.Cut.{IsCut, accepted-IsCut}
use acs_base_model_api.Loom.Newlines.{submitted}
use acs_base_model_api.Loom.Import.{create_nodes, created_ids, import_nodes}
use acs_base_model_api.Loom.Cycles.{HasRoot}
use acs_base_model_api.Loom.Resubmit.{resubmit_keeps_rows}
use acs_base_model_api.Loom.Imported.{import_nodes-HasRoot}
use acs_base_model_api.Loom.Stack.{In, Descends, self, down}
use acs_base_model_api.Loom.Subtree.{subtree_ids_iff}

abbrev node : ℕ → Option ℕ → Text → LoomNode
node id parent text = record {
  id = id;
  loom_id = 1;
  parent_id = parent;
  text = text;
  model = none;
  seed = none;
  position = pos 0;
  logprobs = none;
  created_at = id;
}

abbrev rows : List LoomNode
rows =
    node 1 none (codes "Once ")
    ∷ node 2 (some 1) (codes "upon a ")
    ∷ node 3 (some 2) (codes "time")
    ∷ []

abbrev store : Store
store = record {
  looms =
      record {
        id = 1;
        user_id = 7;
        title = codes "t";
        model = none;
        updated_at = 0;
        archived_at = none;
      }
      ∷ [];
  nodes = rows;
}

abbrev idle : Request
idle = record { user = some 7; generations = []; now = 50 }

-- a generation runs below the grandchild
abbrev busy : Request
busy = record {
  user = some 7;
  generations = record { loom_id = 1; status = "running"; parent_id = 3 } ∷ [];
  now = 50;
}

-- a database that removes nothing: the commands below delete no row
abbrev no_cascade : Cascade
no_cascade ids nodes = nodes

grandchild : Context rows 2 3 (codes "Once upon a time")
unfolding find_node
grandchild =
    below (node 3 (some 2) (codes "time")) refl refl
      (below (node 2 (some 1) (codes "upon a ")) refl refl
        (root (node 1 none (codes "Once ")) refl refl refl) refl)
      refl

loom_prefix_for_node-Context_example : loom_prefix_for_node rows 3 ≡ some (codes "Once upon a time")
loom_prefix_for_node-Context_example =
    loom_prefix_for_node-Context {t = rows} {d = 2} {x = 3} {s = codes "Once upon a time"}
      grandchild

abbrev cut_child : LoomNode
cut_child = tail_child 9 50 1 (node 2 (some 1) (codes "upon a ")) (codes "a ") (pos 1)

all_rows : AllOf 1 rows
unfolding find_node
all_rows x nd f = ground (arith, f)

split_keeps_prefixes_example :
    loom_prefix_for_node
      (split_rows 1 (node 2 (some 1) (codes "upon a ")) (codes "upon ") cut_child rows)
      (moved 2 9 3)
    ≡ loom_prefix_for_node rows 3
unfolding find_node
split_keeps_prefixes_example =
    split_keeps_prefixes 1 rows (node 2 (some 1) (codes "upon a ")) cut_child (codes "upon ") refl
      refl all_rows refl {d = 2} {x = 3} {s = codes "Once upon a time"} refl grandchild

refused_keeps_rows_example : (handle no_cascade idle 1 (edit_node 8 (codes "x")) store).1 ≡ store
unfolding handle loom_edit_node with_loom get_owned_loom find_loom find_node loom_nodes sort_by
refused_keeps_rows_example =
    refused_keeps_rows no_cascade idle 1 (edit_node 8 (codes "x")) store refl

busy_keeps_rows_example : Refuses store (handle no_cascade busy 1 (delete_node 2) store)
unfolding children loom_nodes sort_by
busy_keeps_rows_example = busy_keeps_rows no_cascade busy 1 2 (delete_node 2) store refl (
  record { loom_id = 1; status = "running"; parent_id = 3 },
  (inl refl, (refl, (refl, down (self refl) refl))),
)

accepted-IsCut_example :
    (old : LoomNode) × IsCut 1 2
      (pos 5)
      none
      9
      store
      old
      (keep_head (codes "upon ") (node 2 (some 1) (codes "upon a ")))
      (tail_child 9 50 1 (node 2 (some 1) (codes "upon a ")) (codes "a ") (pos 1))
      (loom_split_node idle 1 2 (pos 5) none 9 store).1
unfolding loom_split_node with_loom get_owned_loom find_loom find_node loom_nodes
    running_gen_in_subtree subtree_ids visit children next_sibling_position max_position sort_by
accepted-IsCut_example =
    accepted-IsCut idle 1 2 (pos 5) none 9 store
      (keep_head (codes "upon ") (node 2 (some 1) (codes "upon a ")))
      (tail_child 9 50 1 (node 2 (some 1) (codes "upon a ")) (codes "a ") (pos 1))
      (loom_split_node idle 1 2 (pos 5) none 9 store).1 refl

subtree_ids_iff_example : In 3 (subtree_ids rows 2) ↔ Descends rows 2 3
subtree_ids_iff_example = subtree_ids_iff rows 2 3

-- two nodes on a cycle beside the tree
abbrev tangled : List LoomNode
tangled =
    node 5 (some 6) (codes "x")
    ∷ node 6 (some 5) (codes "y")
    ∷ node 1 none (codes "Once ")
    ∷ node 2 (some 1) (codes "upon")
    ∷ []

-- a file whose two nodes are each other's parent, and one that has an unknown parent
abbrev entry_of : Text → Text → Json
entry_of id parent = Json.obj (
    Fields.field (codes "id") (Json.str id)
      (Fields.field (codes "parent_id") (Json.str parent) Fields.stop))

abbrev doctored : Items
doctored = Items.item (entry_of (codes "a") (codes "b")) (
    Items.item Json.null (
      Items.item (entry_of (codes "b") (codes "a"))
        (Items.item (entry_of (codes "c") (codes "z")) Items.end)))

import_nodes-HasRoot_example :
    All
      (HasRoot (import_nodes 1 50 suc doctored))
      (created_ids (create_nodes 1 50 suc 0 doctored []).1)
import_nodes-HasRoot_example = import_nodes-HasRoot 1 50 suc doctored

abbrev lines : LoomNode
lines = node 2 (some 1) (65 ∷ 10 ∷ [])

abbrev two_lines : Store
two_lines = record store { nodes = node 1 none (codes "Once ") ∷ lines ∷ [] }

resubmit_keeps_rows_example :
    (loom_edit_node idle 1 2 (submitted (65 ∷ 10 ∷ [])) two_lines).1.nodes ≡ two_lines.nodes
unfolding loom_nodes sort_by find_node
resubmit_keeps_rows_example =
    resubmit_keeps_rows idle 1 2 lines two_lines refl (refl, (refl, tt))
      ((λ e. absurd (omega (arith, e))), ((λ e. refl), tt))
