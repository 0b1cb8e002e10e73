-- ===== src/Loom/Context.antt =====
-- What `_loom_prefix_for_node` computes: the texts from the root down to a node, joined. The walk
-- is compared with an inductive description of a node's context.
use mathlib.Core.Path.{subst}
use mathlib.Core.List.{reverse, reverse-append, append_assoc, append-nil}
use acs_base_model_api.Base.{
  ℕ, zero, suc, ◌+◌, ◌≤◌, ◌<◌, ◌≡◌, refl, sym, ap, ◌∙◌, false, none, some, List, [], ◌∷◌, ◌++◌,
  arith, nat_eq, nat_beq_iff, ◌==◌, inl, inr, Bool-cases, if◌then◌else◌,
}
use acs_base_model_api.Base.Lists.{length, contains, All}
use acs_base_model_api.Base.Text.{Text}
use acs_base_model_api.Loom.Node.{LoomNode, find_node}
use acs_base_model_api.Loom.Walk.{join, walk_up, walk_fuel, loom_prefix_for_node}

-- `Context t d x s`: in the rows `t` the node `x` is `d` links below a root, and the texts from
-- that root down to `x` join to `s`.
pub data Context (t : List LoomNode) : ℕ → ℕ → Text → Type 0 where
  root :
      {x : ℕ} {s : Text} (nd : LoomNode)
      → find_node t x ≡ some nd
      → nd.parent_id ≡ none
      → s ≡ nd.text
      → Context t zero x s
  below :
      {d x p : ℕ} {s s' : Text} (nd : LoomNode)
      → find_node t x ≡ some nd
      → nd.parent_id ≡ some p
      → Context t d p s
      → s' ≡ s ++ nd.text
      → Context t (suc d) x s'

same_link :
    (t : List LoomNode) (x : ℕ) {p q : ℕ} {n m : LoomNode}
    → find_node t x ≡ some n
    → n.parent_id ≡ some p
    → find_node t x ≡ some m
    → m.parent_id ≡ some q
    → q ≡ p
same_link t x f a g b = ground arith

no_link :
    (t : List LoomNode) (x : ℕ) {q : ℕ} {n m : LoomNode}
    → find_node t x ≡ some n
    → n.parent_id ≡ none
    → find_node t x ≡ some m
    → m.parent_id ≡ some q
    → ⊥
no_link t x f a g b = ground arith

-- the depth of a node is determined
pub Context-depth :
    {t : List LoomNode} {d e x : ℕ} {s u : Text} → Context t d x s → Context t e x u → d ≡ e
Context-depth (root n f p q) (root n' f' p' q') = refl
Context-depth {t} {x = x} (root n f p q) (below n' f' p' c' q') = absurd (no_link t x f p f' p')
Context-depth {t} {x = x} (below n f p c q) (root n' f' p' q') = absurd (no_link t x f' p' f p)
Context-depth {t} {x = x} (below n f p c q) (below {d = d'} {s = s2} n' f' p' c' q') =
    ap suc (Context-depth c (subst (λ z. Context t d' z s2) (same_link t x f p f' p') c'))

-- every id already seen is strictly deeper than `d`
abbrev pub Deeper : List LoomNode → ℕ → List ℕ → Type 0
Deeper t d seen = All (λ y. (e : ℕ) × (u : Text) × Context t e y u × (d < e)) seen

pub Deeper-mono :
    (t : List LoomNode) (d e : ℕ) (seen : List ℕ) → e ≤ d → Deeper t d seen → Deeper t e seen
Deeper-mono t d e [] le h = tt
Deeper-mono t d e (y ∷ ys) le ((e', u, c, lt), hs) =
    ((e', u, c, omega arith), Deeper-mono t d e ys le hs)

pub Deeper-unseen :
    {t : List LoomNode} {d x : ℕ} {s : Text} (seen : List ℕ)
    → Context t d x s
    → Deeper t d seen
    → contains x seen ≡ false
Deeper-unseen [] c h = refl
Deeper-unseen {t} {d} {x} (y ∷ ys) c ((e, u, c', lt), hs) = elim (Bool-cases (y == x)) [
  | inl same ↦
      absurd (
        omega (arith, Context-depth c (subst (λ z. Context t e z u) ((nat_beq_iff y x).0 same) c')))
  | inr other ↦ rw (other, contains) (Deeper-unseen ys c hs)
]

-- how many rows have an id that is not in `seen`
abbrev pub unseen : List LoomNode → List ℕ → ℕ
unseen [] seen = 0
unseen (nd ∷ nds) seen = (if contains nd.id seen then 0 else 1) + unseen nds seen

unseen-le : (t : List LoomNode) (x : ℕ) (seen : List ℕ) → unseen t (x ∷ seen) ≤ unseen t seen
unseen-le [] x seen = omega arith
unseen-le (nd ∷ nds) x seen = ground (arith, unseen-le nds x seen)

pub unseen-lt :
    (t : List LoomNode) (x : ℕ) (seen : List ℕ) {nd : LoomNode}
    → find_node t x ≡ some nd
    → contains x seen ≡ false
    → unseen t (x ∷ seen) < unseen t seen
unfolding find_node
unseen-lt [] x seen f h = absurd (ground (arith, f))
unseen-lt (n ∷ ns) x seen {nd} f h = elim (Bool-cases (n.id == x)) [
  | inl here ↦ ground (arith, unseen-le ns x seen)
  | inr later ↦ ground (arith, unseen-lt ns x seen {nd = nd})
]

pub unseen-nil : (t : List LoomNode) → unseen t [] ≡ length t
unseen-nil [] = refl
unseen-nil (nd ∷ nds) = omega (arith, unseen-nil nds)

join-append : (xs ys : List Text) → join (xs ++ ys) ≡ join xs ++ join ys
unfolding join
join-append [] ys = refl
join-append (x ∷ xs) ys = rw (join-append xs ys) (sym (append_assoc x (join xs) (join ys)))

walk_round :
    (t : List LoomNode) (fuel x : ℕ) (seen : List ℕ) (chain : List Text) (nd : LoomNode)
    → find_node t x ≡ some nd
    → contains x seen ≡ false
    → walk_up (suc fuel) t seen (some x) chain
      ≡ walk_up fuel t (x ∷ seen) nd.parent_id (chain ++ nd.text ∷ [])
unfolding walk_up
walk_round t fuel x seen chain nd f new = rw (new, f) refl

join-reverse :
    (chain : List Text) (w : Text) → join (reverse (chain ++ w ∷ [])) ≡ w ++ join (reverse chain)
unfolding join
join-reverse chain w = rw (reverse-append chain (w ∷ [])) refl

-- the loop, from any round of it: the chain grows by texts that join to the context
walk_up-Context :
    {t : List LoomNode} {d x : ℕ} {s : Text} (fuel : ℕ) (seen : List ℕ) (chain : List Text)
    → Context t d x s
    → Deeper t d seen
    → unseen t seen < fuel
    → (out : List Text) × (walk_up fuel t seen (some x) chain ≡ some out)
      × (join (reverse out) ≡ s ++ join (reverse chain))
unfolding walk_up
walk_up-Context zero seen chain c deep enough = elim enough [ ]
walk_up-Context {t} {x = x} (suc zero) seen chain (root n f p q) deep enough =
    absurd (omega (arith, unseen-lt t x seen f (Deeper-unseen seen (root n f p q) deep)))
walk_up-Context {t} {x = x} {s = s} (suc (suc fuel)) seen chain (root n f p q) deep enough =
    let new : contains x seen ≡ false = Deeper-unseen seen (root n f p q) deep in
    (
      chain ++ n.text ∷ [],
      walk_round t (suc fuel) x seen chain n f new
          ∙ ap (λ p. walk_up (suc fuel) t (x ∷ seen) p (chain ++ n.text ∷ [])) p,
      join-reverse chain n.text ∙ ap (λ z. z ++ join (reverse chain)) (sym q),
    )
walk_up-Context {t} {d = suc d} {x = x} {s = s'} (suc fuel) seen chain
      (below {p = p} {s = s} n f l c q) deep enough =
    let new : contains x seen ≡ false = Deeper-unseen seen (below n f l c q) deep in
    let (out, runs, joins) =
      walk_up-Context fuel (x ∷ seen) (chain ++ n.text ∷ []) c
        ((suc d, s', below n f l c q, omega arith), Deeper-mono t (suc d) d seen (omega arith) deep)
        (omega (arith, unseen-lt t x seen f new)) in
    (
      out,
      walk_round t fuel x seen chain n f new
          ∙ ap (λ p. walk_up fuel t (x ∷ seen) p (chain ++ n.text ∷ [])) l
          ∙ runs,
      joins
          ∙ ap (λ z. s ++ z) (join-reverse chain n.text)
          ∙ sym (append_assoc s n.text (join (reverse chain)))
          ∙ ap (λ z. z ++ join (reverse chain)) (sym q),
    )

-- A node whose parent links lead to a root gets the texts from that root down to it, joined.
pub loom_prefix_for_node-Context :
    {t : List LoomNode} {d x : ℕ} {s : Text} → Context t d x s → loom_prefix_for_node t x ≡ some s
unfolding loom_prefix_for_node join
loom_prefix_for_node-Context {t} {s = s} c =
    let (out, runs, joins) =
      walk_up-Context (walk_fuel t) [] [] c tt (omega (arith, unseen-nil t)) in
    ap (λ r. elim r [ none ↦ none | some chain ↦ some (join (reverse chain)) ]) runs
    ∙ ap some (joins ∙ append-nil s)
