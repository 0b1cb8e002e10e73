-- ===== src/Loom/Subtree.antt =====
-- `_subtree_ids` of routes/loom.py collects exactly the ids at or below a node.
use mathlib.Core.List.{reverse}
use mathlib.Core.Path.{subst}
use acs_base_model_api.Base.{
  ℕ, zero, suc, ◌+◌, ◌<◌, ◌≡◌, sym, ap, ◌∙◌, false, List, [], ◌∷◌, ◌++◌, arith, nat_eq, nat_beq_iff,
  ◌==◌, beq_refl, inl, inr, ◌⊎◌, ◌↔◌, Bool-cases,
}
use acs_base_model_api.Base.Lists.{length, contains}
use acs_base_model_api.Loom.Node.{LoomNode}
use acs_base_model_api.Loom.Walk.{children, visit, subtree_ids}
use acs_base_model_api.Loom.Stack.{
  false≢true, or-cases, cases-or, pending, pending-nil, round-left, visit-old, visit-new, In-stack,
  stack-In, In, Descends, self, down,
}

module _ (t : List LoomNode) where
  visit_sound :
      (top fuel : ℕ) (seen stack : List ℕ)
      → ((x : ℕ) → In x seen → Descends t top x)
      → ((x : ℕ) → In x stack → Descends t top x)
      → (x : ℕ) → In x (visit fuel t seen stack)
      → Descends t top x
  unfolding visit
  visit_sound top zero seen stack hs hk x m = hs x m
  visit_sound top (suc fuel) seen [] hs hk x m = hs x m
  visit_sound top (suc fuel) seen (id ∷ stack) hs hk x m = elim (Bool-cases (contains id seen)) [
    | inl old ↦
        visit_sound top fuel seen stack hs
          (λ y k. hk y (cases-or (id == y) (contains y stack) (inr k))) x
          (sym (ap (contains x) (visit-old t fuel id seen stack old)) ∙ m)
    | inr new ↦
        let here : Descends t top id =
          hk id (cases-or (id == id) (contains id stack) (inl (beq_refl id))) in
        visit_sound top fuel (id ∷ seen) (reverse (children t id) ++ stack)
          (λ y k. elim (or-cases (id == y) (contains y seen) k) [
            | inl e ↦ subst (Descends t top) ((nat_beq_iff id y).0 e) here
            | inr k' ↦ hs y k'
          ])
          (λ y k. elim (In-stack t y id stack k) [
            | inl c ↦ down here c
            | inr k' ↦ hk y (cases-or (id == y) (contains y stack) (inr k'))
          ])
          x (sym (ap (contains x) (visit-new t fuel id seen stack new)) ∙ m)
  ]

  -- what is seen stays
  visit-keeps :
      (fuel : ℕ) (seen stack : List ℕ) (x : ℕ) → In x seen → In x (visit fuel t seen stack)
  unfolding visit
  visit-keeps zero seen stack x h = h
  visit-keeps (suc fuel) seen [] x h = h
  visit-keeps (suc fuel) seen (id ∷ stack) x h = elim (Bool-cases (contains id seen)) [
    | inl old ↦
        ap (contains x) (visit-old t fuel id seen stack old) ∙ visit-keeps fuel seen stack x h
    | inr new ↦
        ap (contains x) (visit-new t fuel id seen stack new)
        ∙ visit-keeps fuel (id ∷ seen) (reverse (children t id) ++ stack) x
            (cases-or (id == x) (contains x seen) (inr h))
  ]

  -- the children of what is seen are seen or on the stack
  abbrev Closed : List ℕ → List ℕ → Type 0
  Closed seen stack = (p x : ℕ) → In p seen → In x (children t p) → In x seen ⊎ In x stack

  Closed_nil : (seen : List ℕ) (x : ℕ) → In x seen ⊎ In x [] → In x seen
  Closed_nil seen x (inl h) = h
  Closed_nil seen x (inr k) = absurd (false≢true k)

  Closed_old :
      (seen stack : List ℕ) (id x : ℕ)
      → In id seen
      → In x seen ⊎ In x (id ∷ stack)
      → In x seen ⊎ In x stack
  Closed_old seen stack id x old (inl h) = inl h
  Closed_old seen stack id x old (inr k) = elim (or-cases (id == x) (contains x stack) k) [
    | inl e ↦ inl (subst (λ z. In z seen) ((nat_beq_iff id x).0 e) old)
    | inr k' ↦ inr k'
  ]

  visit-Closed :
      (seen stack : List ℕ) (id : ℕ)
      → Closed seen (id ∷ stack)
      → Closed (id ∷ seen) (reverse (children t id) ++ stack)
  visit-Closed seen stack id closed p x m c = elim (or-cases (id == p) (contains p seen) m) [
    | inl e ↦ inr (
        stack-In t x id stack
          (inl (subst (λ z. In x (children t z)) (sym ((nat_beq_iff id p).0 e)) c)))
    | inr m' ↦ elim (closed p x m' c) [
      | inl h ↦ inl (cases-or (id == x) (contains x seen) (inr h))
      | inr k ↦ elim (or-cases (id == x) (contains x stack) k) [
        | inl e ↦ inl (cases-or (id == x) (contains x seen) (inl e))
        | inr k' ↦ inr (stack-In t x id stack (inr k'))
      ]
    ]
  ]

  -- with enough rounds, all of the stack is visited, and with it the children of every visited id
  visit_complete :
      (fuel : ℕ) (seen stack : List ℕ)
      → length stack + pending t seen < fuel
      → Closed seen stack
      → ((x : ℕ) → In x stack → In x (visit fuel t seen stack))
        × ((p x : ℕ)
            → In p (visit fuel t seen stack)
            → In x (children t p)
            → In x (visit fuel t seen stack))
  unfolding visit
  visit_complete zero seen stack enough closed = elim enough [ ]
  visit_complete (suc fuel) seen [] enough closed =
      ((λ x k. absurd (false≢true k)), (λ p x m c. Closed_nil seen x (closed p x m c)))
  visit_complete (suc fuel) seen (id ∷ stack) enough closed = elim (Bool-cases (contains id seen)) [
    | inl old ↦
        let step : visit (suc fuel) t seen (id ∷ stack) ≡ visit fuel t seen stack =
          visit-old t fuel id seen stack old in
        let (pushed, below) =
          visit_complete fuel seen stack (omega (arith, enough))
            (λ p x m c. Closed_old seen stack id x old (closed p x m c)) in
        (
          (λ x k. ap (contains x) step ∙ elim (or-cases (id == x) (contains x stack) k) [
            | inl e ↦
                visit-keeps fuel seen stack x (subst (λ z. In z seen) ((nat_beq_iff id x).0 e) old)
            | inr k' ↦ pushed x k'
          ]),
          (λ p x m c. ap (contains x) step ∙ below p x (sym (ap (contains p) step) ∙ m) c),
        )
    | inr new ↦
        let step = visit-new t fuel id seen stack new in
        let (pushed, below) =
          visit_complete fuel (id ∷ seen) (reverse (children t id) ++ stack)
            (omega (arith, enough, round-left t id seen stack new))
            (visit-Closed seen stack id closed) in
        (
          (λ x k. ap (contains x) step ∙ elim (or-cases (id == x) (contains x stack) k) [
            | inl e ↦
                visit-keeps fuel (id ∷ seen) (reverse (children t id) ++ stack) x
                  (cases-or (id == x) (contains x seen) (inl e))
            | inr k' ↦ pushed x (stack-In t x id stack (inr k'))
          ]),
          (λ p x m c. ap (contains x) step ∙ below p x (sym (ap (contains p) step) ∙ m) c),
        )
  ]

reached_all :
    (t : List LoomNode) (top : ℕ)
    → ((y : ℕ) → In y (top ∷ []) → In y (visit (length t + 2) t [] (top ∷ [])))
      × ((p y : ℕ)
          → In p (visit (length t + 2) t [] (top ∷ []))
          → In y (children t p)
          → In y (visit (length t + 2) t [] (top ∷ [])))
reached_all t top =
    visit_complete t (length t + 2) [] (top ∷ []) (omega (arith, pending-nil t))
      (λ p y m c. absurd (false≢true m))

reached :
    (t : List LoomNode) (top y : ℕ) → Descends t top y → In y (visit (length t + 2) t [] (top ∷ []))
reached t top y (self e) =
    (reached_all t top).0 y (cases-or (top == y) false (inl ((nat_beq_iff top y).1 (sym e))))
reached t top y (down {p = p} d c) = (reached_all t top).1 p y (reached t top p d) c

-- `_subtree_ids` returns the ids at or below the node it is asked for, and no other.
pub subtree_ids_iff : (t : List LoomNode) (top x : ℕ) → In x (subtree_ids t top) ↔ Descends t top x
unfolding subtree_ids
subtree_ids_iff t top x = (
  visit_sound t top (length t + 2) [] (top ∷ []) (λ y k. absurd (false≢true k))
      (λ y k. elim (or-cases (top == y) false k) [
        | inl e ↦ self (sym ((nat_beq_iff top y).0 e))
        | inr k' ↦ absurd (false≢true k')
      ])
      x,
  reached t top x,
)
