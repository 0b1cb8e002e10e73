-- ===== src/Loom/Guards.antt =====
-- What the handlers of routes/loom.py do with a request that they refuse.
use acs_base_model_api.Base.{
  ℕ, ◌≡◌, refl, ap, ◌∙◌, Bool, true, false, Option, none, some, List, [], ◌∷◌, arith, nat_eq,
  string_eq, inl, inr, Option-cases, ◌⊎◌, ◌==◌, nat_beq_iff,
}
use acs_base_model_api.Base.Lists.{contains}
use acs_base_model_api.Base.Json.{ℤ}
use acs_base_model_api.Base.Text.{Text}
use acs_base_model_api.Loom.Node.{
  Store, Loom, find_node, loom_nodes, get_owned_loom, find_loom, is_owned,
}
use acs_base_model_api.Loom.Walk.{Generation, subtree_ids, running_gen_in_subtree}
use acs_base_model_api.Loom.Stack.{In, Descends, cases-or}
use acs_base_model_api.Loom.Subtree.{subtree_ids_iff}
use acs_base_model_api.Loom.Command.{
  Command, create_root, delete_node, edit_node, split_node, new_sibling, handle,
}
use acs_base_model_api.Loom.Edit.{
  Response, unauthorized, not_found, node_busy, loom_busy, node_cap, root_no_sibling, no_content,
  with_node, with_child, with_nodes, Request, Outcome, Cascade, with_loom, loom_create_root,
  loom_delete_node, loom_edit_node, loom_split_node, loom_new_sibling,
}

-- the error responses
abbrev pub is_refusal : Response → Bool
is_refusal unauthorized = true
is_refusal not_found = true
is_refusal node_busy = true
is_refusal loom_busy = true
is_refusal node_cap = true
is_refusal root_no_sibling = true
is_refusal no_content = false
is_refusal (with_node n) = false
is_refusal (with_child n c) = false
is_refusal (with_nodes ns) = false

-- an outcome that refuses keeps the store
abbrev pub Keeps : Store → Outcome → Type 0
Keeps s o = is_refusal o.0 ≡ true → o.1 ≡ s

create-Keeps :
    (cascade : Cascade) (r : Request) (loom_id : ℕ) (text : Text) (fresh : ℕ) (s : Store)
    → Keeps s (loom_create_root cascade r loom_id text fresh s)
unfolding loom_create_root with_loom
create-Keeps cascade r loom_id text fresh s h = ground arith

delete-Keeps :
    (cascade : Cascade) (r : Request) (loom_id node_id : ℕ) (s : Store)
    → Keeps s (loom_delete_node cascade r loom_id node_id s)
unfolding loom_delete_node with_loom
delete-Keeps cascade r loom_id node_id s h = ground arith

edit-Keeps :
    (r : Request) (loom_id node_id : ℕ) (text : Text) (s : Store)
    → Keeps s (loom_edit_node r loom_id node_id text s)
unfolding loom_edit_node with_loom
edit-Keeps r loom_id node_id text s h = ground arith

split-Keeps :
    (r : Request) (loom_id node_id : ℕ) (offset : ℤ) (text : Option Text) (fresh : ℕ) (s : Store)
    → Keeps s (loom_split_node r loom_id node_id offset text fresh s)
unfolding loom_split_node with_loom
split-Keeps r loom_id node_id offset text fresh s h = ground arith

sibling-Keeps :
    (r : Request) (loom_id node_id : ℕ) (text : Text) (fresh : ℕ) (s : Store)
    → Keeps s (loom_new_sibling r loom_id node_id text fresh s)
unfolding loom_new_sibling with_loom
sibling-Keeps r loom_id node_id text fresh s h = ground arith

-- A command that is answered by an error leaves every stored row as it was.
pub refused_keeps_rows :
    (cascade : Cascade) (r : Request) (loom_id : ℕ) (c : Command) (s : Store)
    → is_refusal (handle cascade r loom_id c s).0 ≡ true
    → (handle cascade r loom_id c s).1 ≡ s
unfolding handle
refused_keeps_rows cascade r loom_id (create_root text fresh) s h =
    create-Keeps cascade r loom_id text fresh s h
refused_keeps_rows cascade r loom_id (delete_node node_id) s h =
    delete-Keeps cascade r loom_id node_id s h
refused_keeps_rows cascade r loom_id (edit_node node_id text) s h =
    edit-Keeps r loom_id node_id text s h
refused_keeps_rows cascade r loom_id (split_node node_id offset text fresh) s h =
    split-Keeps r loom_id node_id offset text fresh s h
refused_keeps_rows cascade r loom_id (new_sibling node_id text fresh) s h =
    sibling-Keeps r loom_id node_id text fresh s h

-- whether a generation runs at or below a node, as the guards ask it
abbrev pub is_busy : Request → Store → ℕ → ℕ → Bool
is_busy r s loom_id id =
    running_gen_in_subtree r.generations loom_id (subtree_ids (loom_nodes s loom_id) id)

abbrev busy_of : Request → Store → ℕ → Option ℕ → Bool
busy_of r s loom_id none = true
busy_of r s loom_id (some id) = is_busy r s loom_id id

-- the node whose subtree a command would change
abbrev pub target : Command → Store → ℕ → Option ℕ
target (create_root text fresh) s loom_id = none
target (delete_node node_id) s loom_id = some node_id
target (edit_node node_id text) s loom_id = some node_id
target (split_node node_id offset text fresh) s loom_id = some node_id
target (new_sibling node_id text fresh) s loom_id =
    elim (find_node (loom_nodes s loom_id) node_id) [ none ↦ none | some nd ↦ nd.parent_id ]

find_loom-id :
    (ls : List Loom) (loom_id user : ℕ) (l : Loom)
    → find_loom (is_owned loom_id user) ls ≡ some l
    → l.id ≡ loom_id
unfolding find_loom
find_loom-id [] loom_id user l f = absurd (ground (arith, f))
find_loom-id (m ∷ ls) loom_id user l f = ground (arith, find_loom-id ls loom_id user l)

-- the loom that a handler works on is the one that was asked for
pub owned-id :
    (s : Store) (loom_id user : ℕ) (l : Loom)
    → get_owned_loom s loom_id user ≡ some l
    → l.id ≡ loom_id
unfolding get_owned_loom
owned-id s loom_id user l f = find_loom-id s.looms loom_id user l f

-- every handler answers by an error or by its body, on the loom that was asked for
with_loom-cases :
    (r : Request) (loom_id : ℕ) (s : Store) (body : Loom → Outcome)
    → ((l : Loom) → l.id ≡ loom_id → is_refusal (body l).0 ≡ true)
    → is_refusal (with_loom r loom_id s body).0 ≡ true
unfolding with_loom
with_loom-cases r loom_id s body h = elim (Option-cases r.user) [
  | inl e ↦ rw e refl
  | inr (user, e) ↦ elim (Option-cases (get_owned_loom s loom_id user)) [
    | inl f ↦ ground (arith, e, f)
    | inr (l, f) ↦ let k = h l (owned-id s loom_id user l f) in ground (arith, e, f, k)
  ]
]

delete-busy :
    (cascade : Cascade) (r : Request) (loom_id node_id : ℕ) (s : Store)
    → is_busy r s loom_id node_id ≡ true
    → is_refusal (loom_delete_node cascade r loom_id node_id s).0 ≡ true
unfolding loom_delete_node
delete-busy cascade r loom_id node_id s b = with_loom-cases r loom_id s _ λ l e.
    let b' : is_busy r s l.id node_id ≡ true = ap (λ i. is_busy r s i node_id) e ∙ b in ground arith

edit-busy :
    (r : Request) (loom_id node_id : ℕ) (text : Text) (s : Store)
    → is_busy r s loom_id node_id ≡ true
    → is_refusal (loom_edit_node r loom_id node_id text s).0 ≡ true
unfolding loom_edit_node
edit-busy r loom_id node_id text s b = with_loom-cases r loom_id s _ λ l e.
    let b' : is_busy r s l.id node_id ≡ true = ap (λ i. is_busy r s i node_id) e ∙ b in ground arith

split-busy :
    (r : Request) (loom_id node_id : ℕ) (offset : ℤ) (text : Option Text) (fresh : ℕ) (s : Store)
    → is_busy r s loom_id node_id ≡ true
    → is_refusal (loom_split_node r loom_id node_id offset text fresh s).0 ≡ true
unfolding loom_split_node
split-busy r loom_id node_id offset text fresh s b = with_loom-cases r loom_id s _ λ l e.
    let b' : is_busy r s l.id node_id ≡ true = ap (λ i. is_busy r s i node_id) e ∙ b in ground arith

sibling-busy :
    (r : Request) (loom_id node_id parent : ℕ) (text : Text) (fresh : ℕ) (s : Store)
    → target (new_sibling node_id text fresh) s loom_id ≡ some parent
    → is_busy r s loom_id parent ≡ true
    → is_refusal (loom_new_sibling r loom_id node_id text fresh s).0 ≡ true
unfolding loom_new_sibling
sibling-busy r loom_id node_id parent text fresh s t b = with_loom-cases r loom_id s _ λ l e.
    let t' : target (new_sibling node_id text fresh) s l.id ≡ some parent =
      ap (target (new_sibling node_id text fresh) s) e ∙ t in
    let b' : is_busy r s l.id parent ≡ true = ap (λ i. is_busy r s i parent) e ∙ b in ground arith

-- an entry of the process's generations
abbrev pub Among : Generation → List Generation → Type 0
Among g [] = ⊥
Among g (h ∷ gs) = (h ≡ g) ⊎ Among g gs

-- a generation of the loom is running under the node or a node below it
abbrev pub Generating : Request → Store → ℕ → ℕ → Type 0
Generating r s loom_id id =
    (g : Generation) × (Among g r.generations
      × ((g.loom_id ≡ loom_id)
          × ((g.status ≡ "running") × Descends (loom_nodes s loom_id) id g.parent_id)))

found_running :
    (g : Generation) (gs : List Generation) (loom_id : ℕ) (subtree : List ℕ)
    → Among g gs
    → g.loom_id ≡ loom_id
    → g.status ≡ "running"
    → In g.parent_id subtree
    → running_gen_in_subtree gs loom_id subtree ≡ true
unfolding running_gen_in_subtree
found_running g [] loom_id subtree m own runs inside = absurd m
found_running g (h ∷ gs) loom_id subtree (inl e) own runs inside =
    let this : h.loom_id == loom_id ≡ true =
      (nat_beq_iff h.loom_id loom_id).1 (ap (λ x. x.loom_id) e ∙ own) in
    let status : h.status == "running" ≡ true =
      (string_eq.equals_iff h.status "running").1 (ap (λ x. x.status) e ∙ runs) in
    let below : In h.parent_id subtree = ap (λ x. contains x.parent_id subtree) e ∙ inside in
    rw (this, status, below) refl
found_running g (h ∷ gs) loom_id subtree (inr m) own runs inside =
    cases-or _ (running_gen_in_subtree gs loom_id subtree)
      (inr (found_running g gs loom_id subtree m own runs inside))

Generating-is_busy :
    (r : Request) (s : Store) (loom_id id : ℕ)
    → Generating r s loom_id id
    → is_busy r s loom_id id ≡ true
Generating-is_busy r s loom_id id (g, (m, (own, (runs, below)))) =
    found_running g r.generations loom_id (subtree_ids (loom_nodes s loom_id) id) m own runs
      ((subtree_ids_iff (loom_nodes s loom_id) id g.parent_id).1 below)

-- an answer by an error, with the rows as they were
abbrev pub Refuses : Store → Outcome → Type 0
Refuses s o = (is_refusal o.0 ≡ true) × (o.1 ≡ s)

refuses : (s : Store) (o : Outcome) → Keeps s o → is_refusal o.0 ≡ true → Refuses s o
refuses s o keeps h = (h, keeps h)

-- While a generation of the loom with the status "running" writes under the node whose subtree a
-- command would change, or under a node that descends from it, the command is answered by an error
-- and changes nothing.
pub busy_keeps_rows :
    (cascade : Cascade) (r : Request) (loom_id id : ℕ) (c : Command) (s : Store)
    → target c s loom_id ≡ some id
    → Generating r s loom_id id
    → Refuses s (handle cascade r loom_id c s)
unfolding handle
busy_keeps_rows cascade r loom_id id (create_root text fresh) s t b = absurd (ground (arith, t))
busy_keeps_rows cascade r loom_id id (delete_node n) s t b =
    refuses s _ (delete-Keeps cascade r loom_id n s) (
      delete-busy cascade r loom_id n s
        (ap (λ o. busy_of r s loom_id o) t ∙ Generating-is_busy r s loom_id id b))
busy_keeps_rows cascade r loom_id id (edit_node n text) s t b =
    refuses s _ (edit-Keeps r loom_id n text s) (
      edit-busy r loom_id n text s
        (ap (λ o. busy_of r s loom_id o) t ∙ Generating-is_busy r s loom_id id b))
busy_keeps_rows cascade r loom_id id (split_node n offset text fresh) s t b =
    refuses s _ (split-Keeps r loom_id n offset text fresh s) (
      split-busy r loom_id n offset text fresh s
        (ap (λ o. busy_of r s loom_id o) t ∙ Generating-is_busy r s loom_id id b))
busy_keeps_rows cascade r loom_id id (new_sibling n text fresh) s t b =
    refuses s _ (sibling-Keeps r loom_id n text fresh s)
      (sibling-busy r loom_id n id text fresh s t (Generating-is_busy r s loom_id id b))
