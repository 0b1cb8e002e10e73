-- ===== src/Loom/Cycles.antt =====
-- The third pass of `loom_import` in routes/loom.py: which nodes it turns into roots.
use mathlib.Core.Path.{subst}
use acs_base_model_api.Base.{
  ℕ, zero, suc, ◌+◌, ◌<◌, ◌≡◌, ◌≢◌, refl, sym, ap, ◌∙◌, true, false, none, some, List, [], ◌∷◌,
  ◌++◌, arith, nat_eq, ◌==◌, inl, inr, Bool-cases, Option-cases, if◌then◌else◌,
}
use acs_base_model_api.Base.Lists.{length, contains}
use acs_base_model_api.Base.Text.{Text}
use acs_base_model_api.Loom.Node.{LoomNode, find_node}
use acs_base_model_api.Loom.Edit.{update_node}
use acs_base_model_api.Loom.Import.{loops, make_root}
use acs_base_model_api.Loom.Split.{find_node-id, no_row, some_inj, find_here, find_later}
use acs_base_model_api.Loom.Context.{
  Context, root, below, Deeper, Deeper-mono, Deeper-unseen, unseen, unseen-lt,
}

-- the links from `x` lead to a root
abbrev pub HasRoot : List LoomNode → ℕ → Type 0
HasRoot t x = (d : ℕ) × (s : Text) × Context t d x s

-- every parent link is to a row
abbrev pub Resolved : List LoomNode → Type 0
Resolved t =
    (x p : ℕ) (nd : LoomNode)
    → find_node t x ≡ some nd
    → nd.parent_id ≡ some p
    → (m : LoomNode) × (find_node t p ≡ some m)

loops-root :
    (t : List LoomNode) (fuel x : ℕ) (seen : List ℕ) (nd : LoomNode)
    → find_node t x ≡ some nd
    → nd.parent_id ≡ none
    → loops (suc fuel) t seen x ≡ false
unfolding loops
loops-root t fuel x seen nd f l = ground (arith, f, l)

loops-up :
    (t : List LoomNode) (fuel x p : ℕ) (seen : List ℕ) (nd : LoomNode)
    → find_node t x ≡ some nd
    → nd.parent_id ≡ some p
    → contains x seen ≡ false
    → loops (suc fuel) t seen x ≡ loops fuel t (x ∷ seen) p
unfolding loops
loops-up t fuel x p seen nd f l new = ground (arith, f, l, new)

loops-seen :
    (t : List LoomNode) (fuel x p : ℕ) (seen : List ℕ) (nd : LoomNode)
    → find_node t x ≡ some nd
    → nd.parent_id ≡ some p
    → contains x seen ≡ true
    → loops (suc fuel) t seen x ≡ true
unfolding loops
loops-seen t fuel x p seen nd f l old = ground (arith, f, l, old)

-- a node with a root is never taken for one on a cycle
Context-loops :
    {t : List LoomNode} {d x : ℕ} {s : Text} (fuel : ℕ) (seen : List ℕ)
    → Context t d x s
    → Deeper t d seen
    → loops fuel t seen x ≡ false
unfolding loops
Context-loops zero seen c deep = refl
Context-loops {t} {x = x} (suc fuel) seen (root nd f l q) deep = loops-root t fuel x seen nd f l
Context-loops {t} {d = suc d} {x = x} {s = s} (suc fuel) seen (below {p = p} nd f l c q) deep =
    loops-up t fuel x p seen nd f l (Deeper-unseen seen (below nd f l c q) deep)
    ∙ Context-loops fuel (x ∷ seen) c
        ((suc d, s, below nd f l c q, omega arith), Deeper-mono t (suc d) d seen (omega arith) deep)

-- with enough rounds, a node that is not taken for one on a cycle has a root
pub loops-HasRoot :
    (t : List LoomNode) (fuel x : ℕ) (seen : List ℕ) (nd : LoomNode)
    → Resolved t
    → find_node t x ≡ some nd
    → unseen t seen < fuel
    → loops fuel t seen x ≡ false
    → HasRoot t x
loops-HasRoot t zero x seen nd ok f enough h = elim enough [ ]
loops-HasRoot t (suc fuel) x seen nd ok f enough h = elim (Option-cases nd.parent_id) [
  | inl l ↦ (0, nd.text, root nd f l refl)
  | inr (p, l) ↦ elim (Bool-cases (contains x seen)) [
    | inl old ↦ absurd (ground (arith, h, loops-seen t fuel x p seen nd f l old))
    | inr new ↦
        let (m, g) = ok x p nd f l in
        let (d, s, c) =
          loops-HasRoot t fuel p (x ∷ seen) m ok g (omega (arith, enough, unseen-lt t x seen f new))
            (sym (loops-up t fuel x p seen nd f l new) ∙ h) in
        (suc d, s ++ nd.text, below nd f l c refl)
  ]
]

-- the row that turning `k` into a root makes of a row
abbrev pub rooted_row : ℕ → LoomNode → LoomNode
rooted_row k nd = if nd.id == k then make_root nd else nd

pub find_node-make_root :
    (t : List LoomNode) (k x : ℕ) {nd : LoomNode}
    → find_node t x ≡ some nd
    → find_node (update_node k make_root t) x ≡ some (rooted_row k nd)
find_node-make_root [] k x f = absurd (no_row x f)
find_node-make_root (n ∷ ns) k x {nd} f = elim (Bool-cases (n.id == x)) [
  | inl e ↦
      find_here (rooted_row k n) (update_node k make_root ns) x (ground (arith, e))
      ∙ ap (λ r. some (rooted_row k r)) (some_inj (sym (find_here n ns x e) ∙ f))
  | inr e ↦
      find_later (rooted_row k n) (update_node k make_root ns) x (ground (arith, e))
      ∙ find_node-make_root ns k x (sym (find_later n ns x e) ∙ f)
]

find_node-gone :
    (t : List LoomNode) (k x : ℕ)
    → find_node t x ≡ none
    → find_node (update_node k make_root t) x ≡ none
find_node-gone [] k x f = f
find_node-gone (n ∷ ns) k x f = elim (Bool-cases (n.id == x)) [
  | inl e ↦ absurd (ground (arith, f, find_here n ns x e))
  | inr e ↦
      find_later (rooted_row k n) (update_node k make_root ns) x (ground (arith, e))
      ∙ find_node-gone ns k x (sym (find_later n ns x e) ∙ f)
]

-- and back: a row found afterwards comes from a row found before
find_node-before :
    (t : List LoomNode) (k x : ℕ) {nd : LoomNode}
    → find_node (update_node k make_root t) x ≡ some nd
    → (old : LoomNode) × (find_node t x ≡ some old) × (nd ≡ rooted_row k old)
find_node-before t k x {nd} f = elim (Option-cases (find_node t x)) [
  | inl gone ↦ absurd (ground (arith, f, find_node-gone t k x gone))
  | inr (old, g) ↦ (old, g, some_inj (sym f ∙ find_node-make_root t k x g))
]

other_row :
    (t : List LoomNode) (k x : ℕ) (nd : LoomNode)
    → find_node t x ≡ some nd
    → x ≢ k
    → rooted_row k nd ≡ nd
other_row t k x nd f ne = ground (arith, ne, find_node-id t x f)

pub make_root-Resolved :
    (t : List LoomNode) (k : ℕ) → Resolved t → Resolved (update_node k make_root t)
make_root-Resolved t k ok x p nd f l =
    let (old, g, same) = find_node-before t k x f in
    let link : old.parent_id ≡ some p = ground (arith, l, ap (λ n. n.parent_id) same) in
    let (m, h) = ok x p old g link in (rooted_row k m, find_node-make_root t k p h)

-- a node with a root keeps its context when a node without one becomes a root
pub make_root-Context :
    {t : List LoomNode} {d x : ℕ} {s : Text} (k : ℕ)
    → ¬ HasRoot t k
    → Context t d x s
    → Context (update_node k make_root t) d x s
make_root-Context {t} {x = x} {s = s} k alone (root nd f l q) =
    root nd
      (find_node-make_root t k x f
        ∙ ap some (
            other_row t k x nd f
              (λ e. alone (0, s, subst (λ z. Context t 0 z s) e (root nd f l q)))))
      l q
make_root-Context {t} {d = suc d} {x = x} {s = s} k alone (below nd f l c q) =
    below nd
      (find_node-make_root t k x f
        ∙ ap some (
            other_row t k x nd f
              (λ e. alone (suc d, s, subst (λ z. Context t (suc d) z s) e (below nd f l c q)))))
      l (make_root-Context k alone c) q

pub made_root-Context :
    (t : List LoomNode) (k : ℕ) (nd : LoomNode)
    → find_node t k ≡ some nd
    → Context (update_node k make_root t) 0 k nd.text
made_root-Context t k nd f =
    root (make_root nd) (find_node-make_root t k k f ∙ ap some (ground (arith, find_node-id t k f)))
      refl refl

pub loops-no_root : (t : List LoomNode) (k : ℕ) → loops (length t + 2) t [] k ≡ true → ¬ HasRoot t k
loops-no_root t k h (d, s, c) = ground (arith, h, Context-loops (length t + 2) [] c tt)
