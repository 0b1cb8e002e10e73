-- ===== src/Loom/Edit.antt =====
-- The handlers of routes/loom.py that change a tree by hand. Each takes what the request carries
-- and the stored rows, and gives the response and the rows after it.
use acs_base_model_api.Base.{
  ℕ, min, Bool, true, false, ◌&&◌, ◌||◌, not, Option, none, some, List, [], ◌∷◌, ◌++◌, map, leb,
  nat_eq, string_eq, ◌==◌, if◌then◌else◌,
}
use acs_base_model_api.Base.Json.{ℤ, pos, negsuc, text_eq}
use acs_base_model_api.Base.Lists.{length, select, take, drop}
use acs_base_model_api.Base.Text.{Text}
use acs_base_model_api.Loom.Node.{
  LoomNode, Loom, Store, is_parent, find_node, get_owned_loom, normalize_newlines, loom_nodes,
  next_sibling_position, touch,
}
use acs_base_model_api.Loom.Walk.{Generation, subtree_ids, running_gen_in_subtree}

abbrev pub loom_max_nodes : ℕ
loom_max_nodes = 2000

-- the responses, by status code and error code
pub data Response : Type 0 where
  unauthorized not_found node_busy loom_busy node_cap root_no_sibling no_content : Response
  with_node : LoomNode → Response
  with_child : LoomNode → LoomNode → Response
  with_nodes : List LoomNode → Response

-- what every handler gets: the logged-in user, the process's generations and the time
pub record Request : Type 0 where
  pub user : Option ℕ
  pub generations : List Generation
  pub now : ℕ

abbrev pub Outcome : Type 0
Outcome = Response × Store

-- the login and ownership checks that open every handler
unfoldable pub with_loom : Request → ℕ → Store → (Loom → Outcome) → Outcome
with_loom r loom_id s body = elim r.user [
  | none ↦ (unauthorized, s)
  | some user ↦ elim (get_owned_loom s loom_id user) [
    | none ↦ (not_found, s)
    | some loom ↦ body loom
  ]
]

unfoldable pub loom_tree : Request → ℕ → Store → Outcome
loom_tree r loom_id s = with_loom r loom_id s (λ loom. (with_nodes (loom_nodes s loom.id), s))

unfoldable pub any_running : List Generation → ℕ → Bool
any_running [] loom_id = false
any_running (g ∷ gs) loom_id =
    (g.loom_id == loom_id && g.status == "running") || any_running gs loom_id

abbrev pub is_root_of : ℕ → LoomNode → Bool
is_root_of loom_id nd =
    nd.loom_id == loom_id && (elim nd.parent_id [ none ↦ true | some _ ↦ false ])

-- Deleting rows: ON DELETE CASCADE takes the rows below them too. What the database removes with
-- some rows is a parameter.
abbrev pub Cascade : Type 0
Cascade = List ℕ → List LoomNode → List LoomNode

abbrev pub ids_of : List LoomNode → List ℕ
ids_of [] = []
ids_of (nd ∷ nds) = nd.id ∷ ids_of nds

abbrev pub new_root : ℕ → ℕ → ℕ → Text → LoomNode
new_root fresh now loom_id text = record {
  id = fresh;
  loom_id = loom_id;
  parent_id = none;
  text = normalize_newlines text;
  model = none;
  seed = none;
  position = pos 0;
  logprobs = none;
  created_at = now;
}

unfoldable pub loom_create_root : Cascade → Request → ℕ → Text → ℕ → Store → Outcome
loom_create_root cascade r loom_id text fresh s = with_loom r loom_id s λ loom.
    if any_running r.generations loom.id
    then (loom_busy, s)
    else let kept = cascade (ids_of (select (is_root_of loom.id) s.nodes)) s.nodes in
      let root = new_root fresh r.now loom.id text in
      (with_node root, touch r.now loom.id (record s { nodes = kept ++ root ∷ [] }))

-- the row that a query by node id and loom id finds
abbrev pub node_of_loom : Store → ℕ → ℕ → Option LoomNode
node_of_loom s loom_id node_id = find_node (select (λ nd. nd.loom_id == loom_id) s.nodes) node_id

unfoldable pub loom_delete_node : Cascade → Request → ℕ → ℕ → Store → Outcome
loom_delete_node cascade r loom_id node_id s = with_loom r loom_id s λ loom.
    elim (node_of_loom s loom.id node_id) [
      | none ↦ (not_found, s)
      | some node ↦
          if running_gen_in_subtree r.generations loom.id
            (subtree_ids (loom_nodes s loom.id) node_id)
          then (node_busy, s)
          else (
            no_content,
            touch r.now loom.id (record s { nodes = cascade (node.id ∷ []) s.nodes }),
          )
    ]

-- the row of a node, replaced by what `f` makes of it
abbrev pub update_node : ℕ → (LoomNode → LoomNode) → List LoomNode → List LoomNode
update_node id f [] = []
update_node id f (nd ∷ nds) = (if nd.id == id then f nd else nd) ∷ update_node id f nds

-- the assignments to an edited node: only a text that differs changes it
unfoldable pub edit_text : Text → LoomNode → LoomNode
edit_text new_text nd =
    if text_eq new_text nd.text then nd else record nd { text = new_text; logprobs = none }

unfoldable pub loom_edit_node : Request → ℕ → ℕ → Text → Store → Outcome
loom_edit_node r loom_id node_id text s = with_loom r loom_id s λ loom.
    elim (find_node (loom_nodes s loom.id) node_id) [
      | none ↦ (not_found, s)
      | some node ↦
          if running_gen_in_subtree r.generations loom.id
            (subtree_ids (loom_nodes s loom.id) node_id)
          then (node_busy, s)
          else let edited = edit_text (normalize_newlines text) in
            (
              with_node (edited node),
              touch r.now loom.id (record s { nodes = update_node node.id edited s.nodes }),
            )
    ]

-- max(0, min(offset, n))
abbrev pub clamp_offset : ℤ → ℕ → ℕ
clamp_offset (pos k) n = min k n
clamp_offset (negsuc k) n = 0

-- the child that carries the tail
abbrev pub tail_child : ℕ → ℕ → ℕ → LoomNode → Text → ℤ → LoomNode
tail_child fresh now loom_id node tail position = record {
  id = fresh;
  loom_id = loom_id;
  parent_id = some node.id;
  text = tail;
  model = node.model;
  seed = none;
  position = position;
  logprobs = none;
  created_at = now;
}

-- the loop that reparents the node's existing children onto the new child
abbrev pub reparent : ℕ → ℕ → ℕ → LoomNode → LoomNode
reparent loom_id node_id child_id nd =
    if nd.loom_id == loom_id && (is_parent node_id nd && not (nd.id == child_id))
    then record nd { parent_id = some child_id }
    else nd

abbrev pub keep_head : Text → LoomNode → LoomNode
keep_head head nd = record nd { text = head; logprobs = none }

-- the rows after the split of `node` into `head` and `child`
unfoldable pub split_rows : ℕ → LoomNode → Text → LoomNode → List LoomNode → List LoomNode
split_rows loom_id node head child nodes =
    update_node node.id (keep_head head) (map (reparent loom_id node.id child.id) nodes)
    ++ child ∷ []

unfoldable pub loom_split_node : Request → ℕ → ℕ → ℤ → Option Text → ℕ → Store → Outcome
loom_split_node r loom_id node_id offset text fresh s = with_loom r loom_id s λ loom.
    let nodes = loom_nodes s loom.id in
    elim (find_node nodes node_id) [
      | none ↦ (not_found, s)
      | some node ↦
          if leb loom_max_nodes (length nodes)
          then (node_cap, s)
          else if running_gen_in_subtree r.generations loom.id (subtree_ids nodes node_id)
          then (node_busy, s)
          else let full : Text = elim text [ none ↦ node.text | some t ↦ normalize_newlines t ] in
            let cut = clamp_offset offset (length full) in
            let child =
              tail_child fresh r.now loom.id node (drop cut full)
                (next_sibling_position s loom.id (some node.id)) in
            (
              with_child (keep_head (take cut full) node) child,
              touch r.now loom.id
                  (record s { nodes = split_rows loom.id node (take cut full) child s.nodes }),
            )
    ]

abbrev pub new_sibling : ℕ → ℕ → ℕ → ℕ → Text → ℤ → LoomNode
new_sibling fresh now loom_id parent text position = record {
  id = fresh;
  loom_id = loom_id;
  parent_id = some parent;
  text = normalize_newlines text;
  model = none;
  seed = none;
  position = position;
  logprobs = none;
  created_at = now;
}

unfoldable pub loom_new_sibling : Request → ℕ → ℕ → Text → ℕ → Store → Outcome
loom_new_sibling r loom_id node_id text fresh s = with_loom r loom_id s λ loom.
    let nodes = loom_nodes s loom.id in
    elim (find_node nodes node_id) [
      | none ↦ (not_found, s)
      | some node ↦ elim node.parent_id [
        | none ↦ (root_no_sibling, s)
        | some parent ↦
            if leb loom_max_nodes (length nodes)
            then (node_cap, s)
            else if running_gen_in_subtree r.generations loom.id (subtree_ids nodes parent)
            then (node_busy, s)
            else let sib =
                new_sibling fresh r.now loom.id parent text
                  (next_sibling_position s loom.id (some parent)) in
              (with_node sib, touch r.now loom.id (record s { nodes = s.nodes ++ sib ∷ [] }))
      ]
    ]
