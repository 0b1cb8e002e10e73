-- ===== src/Loom/Cut.antt =====
-- What an accepted `split_node` of routes/loom.py answers and stores.
use acs_base_model_api.Base.{
  ℕ, zero, suc, ◌≡◌, ◌≢◌, ◌≤◌, ◌⊎◌, min, refl, sym, ap, ◌∙◌, List, [], ◌∷◌, nat_eq, ◌==◌, Option,
  none, some, ◌++◌, arith, if◌then◌else◌, leb, inl, inr, Option-cases,
}
use acs_base_model_api.Base.Json.{ℤ, pos, negsuc}
use acs_base_model_api.Base.Lists.{length, take, drop, take-append-drop}
use acs_base_model_api.Base.Text.{Text}
use acs_base_model_api.Loom.Node.{
  LoomNode, Loom, Store, find_node, loom_nodes, normalize_newlines, get_owned_loom,
  next_sibling_position, touch,
}
use acs_base_model_api.Loom.Walk.{subtree_ids, running_gen_in_subtree}
use acs_base_model_api.Loom.Guards.{owned-id}
use acs_base_model_api.Loom.Edit.{
  not_found, node_busy, node_cap, with_child, Request, Outcome, with_loom, loom_split_node,
  loom_max_nodes, reparent, keep_head, split_rows, clamp_offset, tail_child,
}

-- the text that is cut: the node's own, or the one that came with the request
abbrev pub cut_text : Option Text → LoomNode → Text
cut_text none node = node.text
cut_text (some t) node = normalize_newlines t

-- `head` is what stands before the offset, which is counted from the start and is brought into the
-- text when it lies outside
abbrev pub CutAt : ℤ → Text → Text → Text → Type 0
CutAt (pos k) full head tail =
    (head ++ tail ≡ full) × ((length head ≡ k) ⊎ ((length full ≤ k) × (tail ≡ [])))
CutAt (negsuc k) full head tail = (head ≡ []) × (tail ≡ full)

-- the columns that a split leaves to a row
abbrev pub SameRow : LoomNode → LoomNode → Type 0
SameRow x y =
    (y.id ≡ x.id)
    × ((y.loom_id ≡ x.loom_id)
        × ((y.model ≡ x.model)
            × ((y.seed ≡ x.seed) × ((y.position ≡ x.position) × (y.created_at ≡ x.created_at)))))

-- what becomes of a row `x`: the row of the node gets the head and loses its logprobs, the node's
-- children in the loom hang below the new child, and all else stays
abbrev pub RowAfter : ℕ → LoomNode → Text → ℕ → LoomNode → LoomNode → Type 0
RowAfter loom_id node head child x y =
    SameRow x y
    × ((x.id ≡ node.id → (y.text ≡ head) × (y.logprobs ≡ none))
        × ((x.id ≢ node.id → (y.text ≡ x.text) × (y.logprobs ≡ x.logprobs))
            × ((x.loom_id ≡ loom_id
                  → x.parent_id ≡ some node.id
                  → x.id ≢ child
                  → y.parent_id ≡ some child)
                × (x.parent_id ≢ some node.id → y.parent_id ≡ x.parent_id))))

-- each row in its place, and the new child after them
abbrev pub RowsAfter : ℕ → LoomNode → Text → LoomNode → List LoomNode → List LoomNode → Type 0
RowsAfter loom_id node head ch [] new = new ≡ ch ∷ []
RowsAfter loom_id node head ch (x ∷ xs) new =
    (y : LoomNode) × (ys : List LoomNode) × ((new ≡ y ∷ ys)
      × (RowAfter loom_id node head ch.id x y × RowsAfter loom_id node head ch xs ys))

-- the answer has the two halves of `node`, and the rows are those after the split
abbrev pub IsCut :
    ℕ → ℕ → ℤ → Option Text → ℕ → Store → LoomNode → LoomNode → LoomNode → Store → Type 0
IsCut loom_id node_id offset text fresh s node nd ch s' =
    (find_node (loom_nodes s loom_id) node_id ≡ some node)
    × (CutAt offset (cut_text text node) nd.text ch.text
        × ((SameRow node nd × ((nd.parent_id ≡ node.parent_id) × (nd.logprobs ≡ none)))
            × (((ch.id ≡ fresh)
                  × ((ch.loom_id ≡ loom_id)
                      × ((ch.parent_id ≡ some node.id)
                          × ((ch.model ≡ node.model) × (ch.logprobs ≡ none)))))
                × RowsAfter loom_id node nd.text ch s.nodes s'.nodes)))

length-take : (k : ℕ) (t : Text) → k ≤ length t → length (take k t) ≡ k
length-take zero t h = refl
length-take (suc k) [] h = absurd (omega (arith, h))
length-take (suc k) (c ∷ t) h = ap suc (length-take k t (omega (arith, h)))

drop-all : (k : ℕ) (t : Text) → length t ≤ k → drop k t ≡ []
drop-all zero [] h = refl
drop-all zero (c ∷ t) h = absurd (omega (arith, h))
drop-all (suc k) [] h = refl
drop-all (suc k) (c ∷ t) h = drop-all k t (omega (arith, h))

min-cases : (k n : ℕ) → ((k ≤ n) × (min k n ≡ k)) ⊎ ((n ≤ k) × (min k n ≡ n))
min-cases k n = ground arith

clamp-CutAt :
    (offset : ℤ) (full : Text)
    → CutAt offset full
        (take (clamp_offset offset (length full)) full)
        (drop (clamp_offset offset (length full)) full)
clamp-CutAt (negsuc k) full = (refl, refl)
clamp-CutAt (pos k) full = (
  take-append-drop (min k (length full)) full,
  elim (min-cases k (length full)) [
    | inl (le, e) ↦ inl (rw e (length-take k full le))
    | inr (ge, e) ↦ inr (ge, rw e (drop-all (length full) full (omega arith)))
  ],
)

reparent-RowAfter :
    (loom_id : ℕ) (node : LoomNode) (head : Text) (child : ℕ) (x : LoomNode)
    → RowAfter loom_id node head child x (
        if (reparent loom_id node.id child x).id == node.id
        then keep_head head (reparent loom_id node.id child x)
        else reparent loom_id node.id child x)
reparent-RowAfter loom_id node head child x = ground arith

split_rows-RowsAfter :
    (loom_id : ℕ) (node : LoomNode) (head : Text) (ch : LoomNode) (xs : List LoomNode)
    → RowsAfter loom_id node head ch xs (split_rows loom_id node head ch xs)
unfolding split_rows
split_rows-RowsAfter loom_id node head ch [] = refl
split_rows-RowsAfter loom_id node head ch (x ∷ xs) = (
  _,
  _,
  (
    refl,
    (reparent-RowAfter loom_id node head ch.id x, split_rows-RowsAfter loom_id node head ch xs),
  ),
)

-- an answer that is no error comes from the handler's body, on the loom that was asked for
accepted_body :
    (r : Request) (loom_id : ℕ) (s : Store) (body : Loom → Outcome) (nd ch : LoomNode) (s' : Store)
    → with_loom r loom_id s body ≡ (with_child nd ch, s')
    → (l : Loom) × (l.id ≡ loom_id) × (body l ≡ (with_child nd ch, s'))
unfolding with_loom
accepted_body r loom_id s body nd ch s' e = elim (Option-cases r.user) [
  | inl u ↦ absurd (ground (arith, e, u))
  | inr (user, u) ↦ elim (Option-cases (get_owned_loom s loom_id user)) [
    | inl f ↦ absurd (ground (arith, e, u, f))
    | inr (l, f) ↦ (l, owned-id s loom_id user l f, ground (arith, e, u, f))
  ]
]

-- the handler after its login and ownership checks
abbrev split_body : Request → ℕ → ℤ → Option Text → ℕ → Store → ℕ → Outcome
split_body r node_id offset text fresh s i =
    let nodes = loom_nodes s i in
    elim (find_node nodes node_id) [
      | none ↦ (not_found, s)
      | some node ↦
          if leb loom_max_nodes (length nodes)
          then (node_cap, s)
          else if running_gen_in_subtree r.generations i (subtree_ids nodes node_id)
          then (node_busy, s)
          else let full : Text = elim text [ none ↦ node.text | some t ↦ normalize_newlines t ] in
            let cut = clamp_offset offset (length full) in
            let child =
              tail_child fresh r.now i node (drop cut full)
                (next_sibling_position s i (some node.id)) in
            (
              with_child (keep_head (take cut full) node) child,
              touch r.now i (record s { nodes = split_rows i node (take cut full) child s.nodes }),
            )
    ]

body-IsCut :
    (r : Request) (loom_id node_id : ℕ) (offset : ℤ) (text : Option Text) (fresh : ℕ) (s : Store)
    {nd ch : LoomNode} {s' : Store}
    → split_body r node_id offset text fresh s loom_id ≡ (with_child nd ch, s')
    → (node : LoomNode) × IsCut loom_id node_id offset text fresh s node nd ch s'
unfolding touch
body-IsCut r loom_id node_id offset text fresh s {nd} {ch} {s'} e =
    elim (Option-cases (find_node (loom_nodes s loom_id) node_id)) [
      | inl f ↦ absurd (ground (arith, e, f))
      | inr (node, f) ↦
          let full = cut_text text node in
          let cut = clamp_offset offset (length full) in
          let child =
            tail_child fresh r.now loom_id node (drop cut full)
              (next_sibling_position s loom_id (some node.id)) in
          let answers : (nd ≡ keep_head (take cut full) node)
              × ((ch ≡ child)
                  × (s'.nodes ≡ split_rows loom_id node (take cut full) child s.nodes)) =
            ground (arith, e, f) in
          (
            node,
            (
              f,
              rw (answers.0, answers.1.0, answers.1.1)
                  (
                    clamp-CutAt offset full,
                    (
                      ((refl, (refl, (refl, (refl, (refl, refl))))), (refl, refl)),
                      (
                        (refl, (refl, (refl, (refl, refl)))),
                        split_rows-RowsAfter loom_id node (take cut full) child s.nodes,
                      ),
                    ),
                  ),
            ),
          )
    ]

-- An accepted split cuts the text of the node, or the one that came with the request, at the offset
-- that was asked for, brought into the text. It answers with the node, which keeps the head, and with
-- a new child below it, which has the given id, the node's model and the tail; both are without
-- logprobs. It stores these two, the node's other children in the loom below the new child, and every
-- other row as it was.
pub accepted-IsCut :
    (r : Request) (loom_id node_id : ℕ) (offset : ℤ) (text : Option Text) (fresh : ℕ) (s : Store)
    (nd ch : LoomNode) (s' : Store)
    → loom_split_node r loom_id node_id offset text fresh s ≡ (with_child nd ch, s')
    → (node : LoomNode) × IsCut loom_id node_id offset text fresh s node nd ch s'
unfolding loom_split_node
accepted-IsCut r loom_id node_id offset text fresh s nd ch s' e =
    let (l, same, runs) =
      accepted_body r loom_id s (λ l. split_body r node_id offset text fresh s l.id) nd ch s' e in
    body-IsCut r loom_id node_id offset text fresh s
      (sym (ap (split_body r node_id offset text fresh s) same) ∙ runs)
