-- ===== src/Loom/Prefix.antt =====
-- The prefix of every node across a split: what `_loom_prefix_for_node` returns for the rows that
-- `split_node` of routes/loom.py leaves.
use mathlib.Core.Path.{subst}
use mathlib.Core.List.{append_assoc}
use acs_base_model_api.Base.{
  ℕ, zero, suc, ◌≡◌, ◌≢◌, refl, sym, ap, ◌∙◌, none, some, List, [], ◌++◌, arith, nat_eq,
  nat_beq_iff, ◌==◌, beq_ne, inl, inr, ◌⊎◌, Bool-cases, if◌then◌else◌,
}
use acs_base_model_api.Base.Text.{Text}
use acs_base_model_api.Loom.Node.{LoomNode, find_node}
use acs_base_model_api.Loom.Walk.{loom_prefix_for_node}
use acs_base_model_api.Loom.Edit.{split_rows}
use acs_base_model_api.Loom.Context.{
  Context, root, below, Context-depth, loom_prefix_for_node-Context,
}
use acs_base_model_api.Loom.Split.{
  split_row, some_inj, find_node-id, find_node-split, find_node-child, split_row-moves,
  split_row-root, split_row_self,
}

-- every row found belongs to the loom
abbrev pub AllOf : ℕ → List LoomNode → Type 0
AllOf loom_id t = (x : ℕ) (nd : LoomNode) → find_node t x ≡ some nd → nd.loom_id ≡ loom_id

-- where the whole text of `x` ends after the split of `k`: `k`'s goes to the new child `m`
abbrev pub moved : ℕ → ℕ → ℕ → ℕ
moved k m x = if x == k then m else x

moved-other : (k m x : ℕ) → x ≢ k → moved k m x ≡ x
moved-other k m x ne = rw (beq_ne x k ne) refl

same_or_other : (x k : ℕ) → (x ≡ k) ⊎ (x ≢ k)
same_or_other x k = elim (Bool-cases (x == k)) [
  | inl e ↦ inl ((nat_beq_iff x k).0 e)
  | inr e ↦ inr (ground (arith, e))
]

moved-same : (k m x : ℕ) → x ≡ k → moved k m x ≡ m
moved-same k m x e = ground (arith, e)

module _ (loom_id : ℕ) (t : List LoomNode) (node child : LoomNode) (head : Text)
    (found : find_node t node.id ≡ some node) (fresh : find_node t child.id ≡ none)
    (own : AllOf loom_id t) (link : child.parent_id ≡ some node.id) where
  abbrev after : List LoomNode
  after = split_rows loom_id node head child t

  not_new : (x : ℕ) {nd : LoomNode} → find_node t x ≡ some nd → x ≢ child.id
  not_new x f e = ground (arith, f, fresh, ap (find_node t) e)

  -- below the node whose text is cut, the new child completes the text
  child-Context :
      {e : ℕ} (pre : Text)
      → head ++ child.text ≡ node.text
      → Context after e node.id (pre ++ head)
      → Context after (suc e) child.id (pre ++ node.text)
  child-Context pre cut c =
      below child (find_node-child t loom_id node child head fresh) link c
        (ap (λ z. pre ++ z) (sym cut) ∙ sym (append_assoc pre head child.text))

  -- a root other than the node
  other_root :
      {x : ℕ} {nd : LoomNode}
      → x ≢ node.id
      → find_node t x ≡ some nd
      → nd.parent_id ≡ none
      → Context after zero x nd.text
  other_root {x} {nd} ne f p =
      let (texts, links) =
        split_row-root loom_id node.id child.id head nd (λ e. ne (sym (find_node-id t x f) ∙ e))
          p in
      root (split_row loom_id node.id head child.id nd)
        (find_node-split t loom_id x node child head f) links (sym texts)

  other_below :
      {x p e : ℕ} {s : Text} {nd : LoomNode}
      → x ≢ node.id
      → find_node t x ≡ some nd
      → nd.parent_id ≡ some p
      → Context after e (moved node.id child.id p) s
      → Context after (suc e) x (s ++ nd.text)
  other_below {x} {p} {s = s} {nd} ne f l c =
      let (texts, links) =
        split_row-moves loom_id node.id child.id head nd p (own x nd f)
          (λ e. ne (sym (find_node-id t x f) ∙ e)) (λ e. not_new x f (sym (find_node-id t x f) ∙ e))
          l in
      below (split_row loom_id node.id head child.id nd)
        (find_node-split t loom_id x node child head f) links c (ap (λ z. s ++ z) (sym texts))

  self_root : node.parent_id ≡ none → Context after zero node.id head
  self_root p =
      let (texts, links) =
        split_row_self loom_id node.id child.id head node none refl p (λ e. ground (arith, e)) in
      root (split_row loom_id node.id head child.id node)
        (find_node-split t loom_id node.id node child head found) links (sym texts)

  self_below :
      {p e : ℕ} {s : Text}
      → p ≢ node.id
      → node.parent_id ≡ some p
      → Context after e p s
      → Context after (suc e) node.id (s ++ head)
  self_below {p} {s = s} ne l c =
      let (texts, links) =
        split_row_self loom_id node.id child.id head node (some p) refl l
          (λ e. ground (arith, e, ne)) in
      below (split_row loom_id node.id head child.id node)
        (find_node-split t loom_id node.id node child head found) links c
        (ap (λ z. s ++ z) (sym texts))

  not_own_parent : {d p : ℕ} {s : Text} → Context t d p s → node.parent_id ≡ some p → p ≢ node.id
  not_own_parent {d} {p} {s} c l e = omega (
    arith,
    Context-depth c
        (subst (λ z. Context t (suc d) z (s ++ node.text)) (sym e) (below node found l c refl)),
  )

  the_node : {x : ℕ} {nd : LoomNode} → x ≡ node.id → find_node t x ≡ some nd → node ≡ nd
  the_node same f = some_inj (sym found ∙ ap (find_node t) (sym same) ∙ f)

  -- the split of the node at hand, from what holds of its parent
  at_node :
      {x : ℕ} {s : Text} {nd : LoomNode}
      → head ++ child.text ≡ node.text
      → find_node t x ≡ some nd
      → x ≡ node.id
      → (pre : Text) → s ≡ pre ++ nd.text
      → (e : ℕ) × Context after e node.id (pre ++ head)
      → (e : ℕ) × Context after e (moved node.id child.id x) s
  at_node {x} {s} {nd} cut f same pre joined (e, c) =
      let full : node ≡ nd = the_node same f in
      (
        suc e,
        subst (λ z. Context after (suc e) z s) (sym (moved-same node.id child.id x same))
            (subst (Context after (suc e) child.id) (ap (λ n. pre ++ n.text) full ∙ sym joined)
              (child-Context pre cut c)),
      )

  -- at each node but the one split, or at the child that completes it, the context is as before
  split-Context :
      {d x : ℕ} {s : Text}
      → head ++ child.text ≡ node.text
      → Context t d x s
      → (e : ℕ) × Context after e (moved node.id child.id x) s
  split-Context {x = x} {s = s} cut (root nd f p q) = elim (same_or_other x node.id) [
    | inl e ↦ at_node cut f e [] q (zero, self_root (ap (λ n. n.parent_id) (the_node e f) ∙ p))
    | inr e ↦ (
      zero,
      subst (λ z. Context after zero z s) (sym (moved-other node.id child.id x e))
          (subst (Context after zero x) (sym q) (other_root e f p)),
    )
  ]
  split-Context {d = suc d} {x = x} {s = s'} cut (below {p = p} {s = s} nd f l c q) =
      let (e', c') = split-Context cut c in
      elim (same_or_other x node.id) [
        | inl e ↦
            let l' : node.parent_id ≡ some p = ap (λ n. n.parent_id) (the_node e f) ∙ l in
            let ne : p ≢ node.id = not_own_parent c l' in
            at_node cut f e s q (
              suc e',
              self_below ne l'
                  (subst (λ z. Context after e' z s) (moved-other node.id child.id p ne) c'),
            )
        | inr e ↦ (
          suc e',
          subst (λ z. Context after (suc e') z s') (sym (moved-other node.id child.id x e))
              (subst (Context after (suc e') x) (sym q) (other_below e f l c')),
        )
      ]

  -- In the rows of one loom, where the node is one of them and the new child below it has an id that
  -- no row has: if the node's text is cut in two and the child gets the second part, every node
  -- whose links lead to a root keeps its prefix; the prefix of the node that was cut is the child's.
  pub split_keeps_prefixes :
      {d x : ℕ} {s : Text}
      → head ++ child.text ≡ node.text
      → Context t d x s
      → loom_prefix_for_node (split_rows loom_id node head child t) (moved node.id child.id x)
        ≡ loom_prefix_for_node t x
  split_keeps_prefixes cut c =
      let (e, c') = split-Context cut c in
      loom_prefix_for_node-Context c' ∙ sym (loom_prefix_for_node-Context c)
