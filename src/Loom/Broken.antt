-- ===== src/Loom/Broken.antt =====
-- Pass 3 of `loom_import` in routes/loom.py as a whole: every imported node can reach a root, and
-- a node that could keeps its prefix.
use mathlib.Core.Path.{subst}
use acs_base_model_api.Base.{
  ℕ, ◌+◌, ◌≡◌, sym, ap, true, false, some, List, [], ◌∷◌, arith, nat_eq, inl, inr, Bool-cases,
  if◌then◌else◌,
}
use acs_base_model_api.Base.Lists.{length, All}
use acs_base_model_api.Base.Text.{Text}
use acs_base_model_api.Loom.Node.{LoomNode, find_node}
use acs_base_model_api.Loom.Edit.{update_node}
use acs_base_model_api.Loom.Import.{loops, make_root, break_cycles}
use acs_base_model_api.Loom.Context.{Context, unseen-nil}
use acs_base_model_api.Loom.Cycles.{
  HasRoot, Resolved, loops-HasRoot, rooted_row, find_node-make_root, make_root-Resolved,
  make_root-Context, made_root-Context, loops-no_root,
}

-- every id is of a row
abbrev pub AllFound : List LoomNode → List ℕ → Type 0
AllFound t ids = All (λ x. (nd : LoomNode) × (find_node t x ≡ some nd)) ids

make_root-AllFound :
    (t : List LoomNode) (k : ℕ) (ids : List ℕ)
    → AllFound t ids
    → AllFound (update_node k make_root t) ids
make_root-AllFound t k [] h = tt
make_root-AllFound t k (x ∷ ids) ((nd, f), hs) =
    ((rooted_row k nd, find_node-make_root t k x f), make_root-AllFound t k ids hs)

broken :
    (k : ℕ) (ids : List ℕ) (t : List LoomNode)
    → loops (length t + 2) t [] k ≡ true
    → break_cycles (k ∷ ids) t ≡ break_cycles ids (update_node k make_root t)
unfolding break_cycles
broken k ids t h =
    ap (λ b. if b then break_cycles ids (update_node k make_root t) else break_cycles ids t) h

kept :
    (k : ℕ) (ids : List ℕ) (t : List LoomNode)
    → loops (length t + 2) t [] k ≡ false
    → break_cycles (k ∷ ids) t ≡ break_cycles ids t
unfolding break_cycles
kept k ids t h =
    ap (λ b. if b then break_cycles ids (update_node k make_root t) else break_cycles ids t) h

break_cycles-Context :
    (ids : List ℕ) (t : List LoomNode) {d x : ℕ} {s : Text}
    → Context t d x s
    → Context (break_cycles ids t) d x s
unfolding break_cycles
break_cycles-Context [] t c = c
break_cycles-Context (k ∷ ids) t {d} {x} {s} c = elim (Bool-cases (loops (length t + 2) t [] k)) [
  | inl h ↦
      subst (λ r. Context r d x s) (sym (broken k ids t h))
        (break_cycles-Context ids (update_node k make_root t)
          (make_root-Context k (loops-no_root t k h) c))
  | inr h ↦ subst (λ r. Context r d x s) (sym (kept k ids t h)) (break_cycles-Context ids t c)
]

pub break_cycles-HasRoot :
    (ids : List ℕ) (t : List LoomNode)
    → Resolved t
    → AllFound t ids
    → All (HasRoot (break_cycles ids t)) ids
break_cycles-HasRoot [] t ok found = tt
break_cycles-HasRoot (k ∷ ids) t ok ((nd, f), found) =
    elim (Bool-cases (loops (length t + 2) t [] k)) [
      | inl h ↦
          let t' = update_node k make_root t in
          subst (λ r. All (HasRoot r) (k ∷ ids)) (sym (broken k ids t h))
            (
              (0, nd.text, break_cycles-Context ids t' (made_root-Context t k nd f)),
              break_cycles-HasRoot ids t' (make_root-Resolved t k ok)
                  (make_root-AllFound t k ids found),
            )
      | inr h ↦
          let (d, s, c) =
            loops-HasRoot t (length t + 2) k [] nd ok f (omega (arith, unseen-nil t)) h in
          subst (λ r. All (HasRoot r) (k ∷ ids)) (sym (kept k ids t h))
            ((d, s, break_cycles-Context ids t c), break_cycles-HasRoot ids t ok found)
    ]
