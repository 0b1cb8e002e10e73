-- ===== src/LoomRun/Shown.antt =====
-- What a reader of the loom's frames shows for one branch: the text of the last frame for it.
use acs_base_model_api.Base.{
  ℕ, zero, suc, ◌-◌, ◌≡◌, ◌≢◌, refl, ap, true, false, ◌⊎◌, inl, inr, Option, none, some, List, [],
  ◌∷◌, ◌++◌, leb, nat_beq, nat_eq, if◌then◌else◌, arith,
}
use acs_base_model_api.Base.Text.{Text}
use acs_base_model_api.Base.Json.{ℤ, pos, negsuc}
use acs_base_model_api.Workbench.Live.{update_at}
use acs_base_model_api.LoomRun.{LoomFrame, loom_chunk}
use acs_base_model_api.LoomRun.Task.{branch_text}

-- the branch that an index of a frame denotes; a negative one counts from the end
abbrev pub branch_index : ℕ → ℤ → Option ℕ
branch_index n (pos i) = if leb n i then none else some i
branch_index n (negsuc k) = if leb n k then none else some (n - suc k)

abbrev pub put_if : ℕ → Text → Text → Option ℕ → Text
put_if i text t none = t
put_if i text t (some j) = if nat_beq j i then text else t

-- what a frame makes of the text that is shown for branch `i` of `n`
abbrev pub set_slot : (n i : ℕ) → LoomFrame → Text → Text
set_slot n i (loom_chunk idx text) t = put_if i text t (branch_index n idx)
set_slot n i _ t = t

abbrev pub show : (n i : ℕ) → List LoomFrame → Text → Text
show n i [] t = t
show n i (f ∷ fs) t = show n i fs (set_slot n i f t)

pub show-append :
    (n i : ℕ) (fs gs : List LoomFrame) (t : Text)
    → show n i (fs ++ gs) t ≡ show n i gs (show n i fs t)
show-append n i [] gs t = refl
show-append n i (f ∷ fs) gs t = show-append n i fs gs (set_slot n i f t)

-- a frame that leaves the branch alone, or has the whole of it
abbrev pub Sets : (n i : ℕ) → LoomFrame → (before after : Text) → Type 0
Sets n i f before after =
    (((t : Text) → set_slot n i f t ≡ t) × (after ≡ before))
    ⊎ ((t : Text) → set_slot n i f t ≡ after)

branch_text-other :
    (i j : ℕ) (g : Text → Text) (branches : List Text)
    → j ≢ i
    → branch_text i (update_at j g branches) ≡ branch_text i branches
unfolding branch_text update_at
branch_text-other i j g [] h = refl
branch_text-other zero zero g (t ∷ branches) h = absurd (h refl)
branch_text-other (suc i) zero g (t ∷ branches) h = refl
branch_text-other zero (suc j) g (t ∷ branches) h = refl
branch_text-other (suc i) (suc j) g (t ∷ branches) h =
    branch_text-other i j g branches (λ e. h (ap (λ m. suc m) e))

nat-cases : (j i : ℕ) → ((nat_beq j i ≡ true) × (j ≡ i)) ⊎ ((nat_beq j i ≡ false) × (j ≢ i))
nat-cases j i = ground arith

-- the frame of a branch that has grown
pub grown-Sets :
    (n i j : ℕ) (idx : ℤ) (g : Text → Text) (branches : List Text)
    → branch_index n idx ≡ some j
    → Sets n i
        (loom_chunk idx (branch_text j (update_at j g branches)))
        (branch_text i branches)
        (branch_text i (update_at j g branches))
grown-Sets n i j idx g branches e = elim (nat-cases j i) [
  | inl (same, eq) ↦ inr (λ t. rw (e, same, eq) refl)
  | inr (other, ne) ↦ inl (λ t. rw (e, other) refl, branch_text-other i j g branches ne)
]
