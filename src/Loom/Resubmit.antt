-- ===== src/Loom/Resubmit.antt =====
-- `edit_node` of routes/loom.py with the text that the node already has, as a browser sends it back.
use acs_base_model_api.Base.{
  ℕ, ◌≡◌, refl, sym, ap, ◌∙◌, none, some, List, [], ◌∷◌, arith, nat_eq, nat_beq_iff, ◌==◌, inl, inr,
  Bool-cases, Option-cases, if◌then◌else◌,
}
use acs_base_model_api.Base.Json.{text_eq_refl}
use acs_base_model_api.Base.Lists.{All}
use acs_base_model_api.Base.Text.{Text}
use acs_base_model_api.Loom.Node.{
  LoomNode, Store, find_node, loom_nodes, normalize_newlines, get_owned_loom, touch,
}
use acs_base_model_api.Loom.Walk.{subtree_ids, running_gen_in_subtree}
use acs_base_model_api.Loom.Edit.{
  Request, Outcome, with_loom, with_node, not_found, node_busy, update_node, edit_text,
  loom_edit_node,
}
use acs_base_model_api.Loom.Newlines.{NoCr, submitted, normalize-submitted}
use acs_base_model_api.Loom.Guards.{owned-id}

-- no other row has the node's id
abbrev pub Keyed : LoomNode → List LoomNode → Type 0
Keyed node rows = All (λ nd. nd.id ≡ node.id → nd ≡ node) rows

edit_text-own : (nd : LoomNode) → edit_text nd.text nd ≡ nd
unfolding edit_text
edit_text-own nd = ground (arith, text_eq_refl nd.text)

update_node-own :
    (node : LoomNode) (rows : List LoomNode)
    → Keyed node rows
    → update_node node.id (edit_text node.text) rows ≡ rows
update_node-own node [] h = refl
update_node-own node (nd ∷ rows) (h, hs) = elim (Bool-cases (nd.id == node.id)) [
  | inl e ↦
      let same : nd ≡ node = h ((nat_beq_iff nd.id node.id).0 e) in
      let kept : edit_text node.text nd ≡ nd =
        ap (λ n. edit_text n.text nd) (sym same) ∙ edit_text-own nd in
      ground (arith, e, kept, update_node-own node rows hs)
  | inr e ↦ ground (arith, e, update_node-own node rows hs)
]

-- the handler after its login and ownership checks
abbrev edit_body : Request → ℕ → Text → Store → ℕ → Outcome
edit_body r node_id text s i = elim (find_node (loom_nodes s i) node_id) [
  | none ↦ (not_found, s)
  | some node ↦
      if running_gen_in_subtree r.generations i (subtree_ids (loom_nodes s i) node_id)
      then (node_busy, s)
      else let edited = edit_text (normalize_newlines text) in
        (
          with_node (edited node),
          touch r.now i (record s { nodes = update_node node.id edited s.nodes }),
        )
]

edit_body-keeps :
    (r : Request) (node_id i : ℕ) (node : LoomNode) (s : Store)
    → find_node (loom_nodes s i) node_id ≡ some node
    → NoCr node.text
    → Keyed node s.nodes
    → (edit_body r node_id (submitted node.text) s i).1.nodes ≡ s.nodes
unfolding touch
edit_body-keeps r node_id i node s f cr key =
    let clean = (normalize-submitted node.text cr).0 in
    let kept : update_node node.id (edit_text (normalize_newlines (submitted node.text))) s.nodes
        ≡ s.nodes =
      ap (λ t. update_node node.id (edit_text t) s.nodes) clean
      ∙ update_node-own node s.nodes key in
    ground (arith, f, kept)

-- For a node of the loom whose text has no carriage return and whose id no other row has: its own
-- text, submitted again with the browser's line ends, changes no row, so neither the text nor the
-- log-probabilities stored with it.
pub resubmit_keeps_rows :
    (r : Request) (loom_id node_id : ℕ) (node : LoomNode) (s : Store)
    → find_node (loom_nodes s loom_id) node_id ≡ some node
    → NoCr node.text
    → Keyed node s.nodes
    → (loom_edit_node r loom_id node_id (submitted node.text) s).1.nodes ≡ s.nodes
unfolding loom_edit_node with_loom
resubmit_keeps_rows r loom_id node_id node s f cr key = elim (Option-cases r.user) [
  | inl u ↦ ground (arith, u)
  | inr (user, u) ↦ elim (Option-cases (get_owned_loom s loom_id user)) [
    | inl g ↦ ground (arith, u, g)
    | inr (l, g) ↦
        let here : find_node (loom_nodes s l.id) node_id ≡ some node =
          ap (λ i. find_node (loom_nodes s i) node_id) (owned-id s loom_id user l g) ∙ f in
        ground (arith, u, g, edit_body-keeps r node_id l.id node s here cr key)
  ]
]
