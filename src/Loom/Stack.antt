-- ===== src/Loom/Stack.antt =====
-- The rounds of `_subtree_ids` in routes/loom.py: what is on the stack, and how much is left to do.
use mathlib.Core.List.{reverse, reverse-append}
use acs_base_model_api.Base.{
  ℕ, suc, ◌+◌, ◌≤◌, ◌≡◌, refl, sym, ap, ◌∙◌, Bool, true, false, ◌||◌, none, some, List, [], ◌∷◌,
  ◌++◌, arith, nat_eq, inl, inr, ◌⊎◌, if◌then◌else◌,
}
use acs_base_model_api.Base.Lists.{length, length-append, contains}
use acs_base_model_api.Loom.Node.{LoomNode}
use acs_base_model_api.Loom.Walk.{children, visit}

-- membership, as the Boolean test answers it
abbrev pub In : ℕ → List ℕ → Type 0
In x xs = contains x xs ≡ true

-- `x` is reached from `root` by links from a row to its parent
pub data Descends (t : List LoomNode) (top : ℕ) : ℕ → Type 0 where
  self : {x : ℕ} → x ≡ top → Descends t top x
  down : {p x : ℕ} → Descends t top p → In x (children t p) → Descends t top x

pub contains-append :
    (x : ℕ) (xs ys : List ℕ) → contains x (xs ++ ys) ≡ (contains x xs || contains x ys)
contains-append x [] ys = refl
contains-append x (y ∷ xs) ys = ground (arith, contains-append x xs ys)

contains-reverse : (x : ℕ) (xs : List ℕ) → contains x (reverse xs) ≡ contains x xs
contains-reverse x [] = refl
contains-reverse x (y ∷ xs) =
    ap (contains x) (reverse-append (y ∷ []) xs)
    ∙ contains-append x (reverse xs) (y ∷ [])
    ∙ ground (arith, contains-reverse x xs)

length-reverse : (xs : List ℕ) → length (reverse xs) ≡ length xs
length-reverse [] = refl
length-reverse (y ∷ xs) =
    ap length (reverse-append (y ∷ []) xs)
    ∙ length-append (reverse xs) (y ∷ [])
    ∙ omega (arith, length-reverse xs)

pub false≢true : false ≡ true → ⊥
false≢true e = ground (arith, e)

pub or-cases : (a b : Bool) → (a || b) ≡ true → (a ≡ true) ⊎ (b ≡ true)
or-cases true b h = inl refl
or-cases false b h = inr h

pub cases-or : (a b : Bool) → (a ≡ true) ⊎ (b ≡ true) → (a || b) ≡ true
cases-or true b h = refl
cases-or false b h = ground (arith, h)

-- the rows whose parent is not visited yet
abbrev pub pending : List LoomNode → List ℕ → ℕ
pending [] seen = 0
pending (nd ∷ nds) seen =
    (elim nd.parent_id [ none ↦ 0 | some p ↦ if contains p seen then 0 else 1 ]) + pending nds seen

pub pending-nil : (t : List LoomNode) → pending t [] ≤ length t
pending-nil [] = omega arith
pending-nil (nd ∷ nds) = ground (arith, pending-nil nds)

pending-visit :
    (t : List LoomNode) (id : ℕ) (seen : List ℕ)
    → contains id seen ≡ false
    → length (children t id) + pending t (id ∷ seen) ≡ pending t seen
unfolding children
pending-visit [] id seen new = refl
pending-visit (nd ∷ nds) id seen new = ground (arith, pending-visit nds id seen new)

-- a round that visits takes one id off the count of what is left to do
pub round-left :
    (t : List LoomNode) (id : ℕ) (seen stack : List ℕ)
    → contains id seen ≡ false
    → length (reverse (children t id) ++ stack) + pending t (id ∷ seen)
      ≡ length stack + pending t seen
round-left t id seen stack new = omega (
  arith,
  length-append (reverse (children t id)) stack,
  length-reverse (children t id),
  pending-visit t id seen new,
)

pub visit-old :
    (t : List LoomNode) (fuel id : ℕ) (seen stack : List ℕ)
    → contains id seen ≡ true
    → visit (suc fuel) t seen (id ∷ stack) ≡ visit fuel t seen stack
unfolding visit
visit-old t fuel id seen stack e = rw (e, visit) refl

pub visit-new :
    (t : List LoomNode) (fuel id : ℕ) (seen stack : List ℕ)
    → contains id seen ≡ false
    → visit (suc fuel) t seen (id ∷ stack)
      ≡ visit fuel t (id ∷ seen) (reverse (children t id) ++ stack)
unfolding visit
visit-new t fuel id seen stack e = rw (e, visit) refl

pub In-stack :
    (t : List LoomNode) (x id : ℕ) (stack : List ℕ)
    → In x (reverse (children t id) ++ stack)
    → In x (children t id) ⊎ In x stack
In-stack t x id stack h = or-cases (contains x (children t id)) (contains x stack) (
    sym (
      contains-append x (reverse (children t id)) stack
      ∙ ap (λ b. b || contains x stack) (contains-reverse x (children t id)))
    ∙ h)

pub stack-In :
    (t : List LoomNode) (x id : ℕ) (stack : List ℕ)
    → In x (children t id) ⊎ In x stack
    → In x (reverse (children t id) ++ stack)
stack-In t x id stack h =
    contains-append x (reverse (children t id)) stack
    ∙ ap (λ b. b || contains x stack) (contains-reverse x (children t id))
    ∙ cases-or (contains x (children t id)) (contains x stack) h
