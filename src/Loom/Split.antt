-- ===== src/Loom/Split.antt =====
-- `split_node` of routes/loom.py on the rows of a loom: what the cut and the reparenting do to the
-- row of each node.
use acs_base_model_api.Base.{
  ℕ, ◌≡◌, ◌≢◌, refl, sym, ap, ◌∙◌, true, false, Option, none, some, List, [], ◌∷◌, arith, nat_eq,
  ◌==◌, beq_refl, inl, inr, Bool-cases, if◌then◌else◌,
}
use acs_base_model_api.Base.Text.{Text}
use acs_base_model_api.Loom.Node.{LoomNode, find_node}
use acs_base_model_api.Loom.Edit.{reparent, keep_head, split_rows}

pub no_row : (x : ℕ) {nd : LoomNode} → find_node [] x ≡ some nd → ⊥
unfolding find_node
no_row x f = ground (arith, f)

pub some_inj : {a b : LoomNode} → some a ≡ some b → a ≡ b
some_inj p = ground (arith, p)

-- the row that a split makes of a row with this id
abbrev pub split_row : ℕ → ℕ → Text → ℕ → LoomNode → LoomNode
split_row loom_id k head m nd =
    let moved = reparent loom_id k m nd in if moved.id == k then keep_head head moved else moved

pub find_node-id : (t : List LoomNode) (x : ℕ) {nd : LoomNode} → find_node t x ≡ some nd → nd.id ≡ x
unfolding find_node
find_node-id [] x f = absurd (ground (arith, f))
find_node-id (n ∷ ns) x {nd} f = ground (arith, find_node-id ns x {nd = nd})

split_row_id :
    (loom_id k m : ℕ) (head : Text) (n : LoomNode) → (split_row loom_id k head m n).id ≡ n.id
split_row_id loom_id k m head n = ground arith

pub find_here :
    (n : LoomNode) (ns : List LoomNode) (x : ℕ) → (n.id == x) ≡ true → find_node (n ∷ ns) x ≡ some n
unfolding find_node
find_here n ns x e = rw e refl

pub find_later :
    (n : LoomNode) (ns : List LoomNode) (x : ℕ)
    → (n.id == x) ≡ false
    → find_node (n ∷ ns) x ≡ find_node ns x
unfolding find_node
find_later n ns x e = rw e refl

pub find_node-split :
    (t : List LoomNode) (loom_id x : ℕ) (node child : LoomNode) (head : Text) {nd : LoomNode}
    → find_node t x ≡ some nd
    → find_node (split_rows loom_id node head child t) x
      ≡ some (split_row loom_id node.id head child.id nd)
unfolding split_rows
find_node-split [] loom_id x node child head f = absurd (no_row x f)
find_node-split (n ∷ ns) loom_id x node child head {nd} f = elim (Bool-cases (n.id == x)) [
  | inl e ↦
      find_here (split_row loom_id node.id head child.id n) (split_rows loom_id node head child ns)
        x (ap (λ i. i == x) (split_row_id loom_id node.id child.id head n) ∙ e)
      ∙ ap (λ r. some (split_row loom_id node.id head child.id r))
          (some_inj (sym (find_here n ns x e) ∙ f))
  | inr e ↦
      find_later (split_row loom_id node.id head child.id n) (split_rows loom_id node head child ns)
        x (ap (λ i. i == x) (split_row_id loom_id node.id child.id head n) ∙ e)
      ∙ find_node-split ns loom_id x node child head (sym (find_later n ns x e) ∙ f)
]

pub find_node-child :
    (t : List LoomNode) (loom_id : ℕ) (node child : LoomNode) (head : Text)
    → find_node t child.id ≡ none
    → find_node (split_rows loom_id node head child t) child.id ≡ some child
unfolding split_rows
find_node-child [] loom_id node child head f = find_here child [] child.id (beq_refl child.id)
find_node-child (n ∷ ns) loom_id node child head f = elim (Bool-cases (n.id == child.id)) [
  | inl e ↦ absurd (ground (arith, f, find_here n ns child.id e))
  | inr e ↦
      find_later (split_row loom_id node.id head child.id n) (split_rows loom_id node head child ns)
        child.id (ap (λ i. i == child.id) (split_row_id loom_id node.id child.id head n) ∙ e)
      ∙ find_node-child ns loom_id node child head (sym (find_later n ns child.id e) ∙ f)
]

-- a row of the loom other than the one that is split: children of the split row move to the new one
pub split_row-moves :
    (loom_id k m : ℕ) (head : Text) (n : LoomNode) (p : ℕ)
    → n.loom_id ≡ loom_id
    → n.id ≢ k
    → n.id ≢ m
    → n.parent_id ≡ some p
    → ((split_row loom_id k head m n).text ≡ n.text)
      × ((split_row loom_id k head m n).parent_id ≡ some (if p == k then m else p))
split_row-moves loom_id k m head n p own nk nm l = ground arith

pub split_row-root :
    (loom_id k m : ℕ) (head : Text) (n : LoomNode)
    → n.id ≢ k
    → n.parent_id ≡ none
    → ((split_row loom_id k head m n).text ≡ n.text)
      × ((split_row loom_id k head m n).parent_id ≡ none)
split_row-root loom_id k m head n nk l = ground arith

-- the split row keeps its parent link
pub split_row_self :
    (loom_id k m : ℕ) (head : Text) (n : LoomNode) (l : Option ℕ)
    → n.id ≡ k
    → n.parent_id ≡ l
    → l ≢ some k
    → ((split_row loom_id k head m n).text ≡ head) × ((split_row loom_id k head m n).parent_id ≡ l)
split_row_self loom_id k m head n l e p np = ground arith
