-- ===== src/Loom/Imported.antt =====
-- The passes of `loom_import` in routes/loom.py together: the tree that an import stores.
use acs_base_model_api.Base.{
  ℕ, ◌+◌, ◌≡◌, refl, sym, ap, ◌∙◌, Option, none, some, List, [], ◌∷◌, arith, nat_eq, ◌==◌, beq_refl,
  inl, inr, ◌⊎◌, Bool-cases, Option-cases,
}
use acs_base_model_api.Base.Json.{Json, Items, get_field, text_eq}
use acs_base_model_api.Base.Lists.{All}
use acs_base_model_api.Base.Text.{Text, codes}
use acs_base_model_api.Loom.Node.{LoomNode, find_node}
use acs_base_model_api.Loom.Import.{
  Created, IdMap, map_get, remember, create_nodes, intended_roots, fallback_root, rehome,
  rewire_one, rewire, created_ids, import_nodes,
}
use acs_base_model_api.Loom.Split.{no_row, some_inj, find_here, find_later}
use acs_base_model_api.Loom.Stack.{In}
use acs_base_model_api.Loom.Cycles.{HasRoot, Resolved}
use acs_base_model_api.Loom.Broken.{AllFound, break_cycles-HasRoot}

-- a created node has no parent yet
abbrev Parentless : List Created → Type 0
Parentless cs = All (λ c. c.node.parent_id ≡ none) cs

remembered :
    (j : Json) (id : ℕ) (m : IdMap) (old : Text) (p : ℕ)
    → map_get old (remember j id m) ≡ some p
    → (map_get old m ≡ some p) ⊎ (id ≡ p)
unfolding map_get
remembered (Json.str k) id m old p h = elim (Bool-cases (text_eq k old)) [
  | inl e ↦ inr (ground (arith, h, e))
  | inr e ↦ inl (ground (arith, h, e))
]
remembered Json.null id m old p h = inl h
remembered (Json.bool b) id m old p h = inl h
remembered (Json.int i) id m old p h = inl h
remembered (Json.real r) id m old p h = inl h
remembered (Json.arr is) id m old p h = inl h
remembered (Json.obj fs) id m old p h = inl h

module _ (loom_id now : ℕ) (fresh : ℕ → ℕ) where
  create_nodes-Parentless :
      (idx : ℕ) (items : Items) (m : IdMap)
      → Parentless (create_nodes loom_id now fresh idx items m).1
  unfolding create_nodes
  create_nodes-Parentless idx Items.end m = tt
  create_nodes-Parentless idx (Items.item (Json.obj raw) items) m =
      (refl, create_nodes-Parentless (idx + 1) items _)
  create_nodes-Parentless idx (Items.item Json.null items) m =
      create_nodes-Parentless (idx + 1) items m
  create_nodes-Parentless idx (Items.item (Json.bool b) items) m =
      create_nodes-Parentless (idx + 1) items m
  create_nodes-Parentless idx (Items.item (Json.int i) items) m =
      create_nodes-Parentless (idx + 1) items m
  create_nodes-Parentless idx (Items.item (Json.real r) items) m =
      create_nodes-Parentless (idx + 1) items m
  create_nodes-Parentless idx (Items.item (Json.str t) items) m =
      create_nodes-Parentless (idx + 1) items m
  create_nodes-Parentless idx (Items.item (Json.arr is) items) m =
      create_nodes-Parentless (idx + 1) items m

  -- an id of the map was there before or is a created one
  abbrev Known : Text → ℕ → ℕ → Items → IdMap → Type 0
  Known old p idx items m =
      (map_get old m ≡ some p) ⊎ In p (created_ids (create_nodes loom_id now fresh idx items m).1)

  create_nodes-Known :
      (idx : ℕ) (items : Items) (m : IdMap) (old : Text) (p : ℕ)
      → map_get old (create_nodes loom_id now fresh idx items m).0 ≡ some p
      → Known old p idx items m
  unfolding create_nodes
  create_nodes-Known idx Items.end m old p h = inl h
  create_nodes-Known idx (Items.item (Json.obj raw) items) m old p h =
      let m' = remember (get_field (codes "id") raw) (fresh idx) m in
      elim (create_nodes-Known (idx + 1) items m' old p h) [
        | inl g ↦ elim (remembered (get_field (codes "id") raw) (fresh idx) m old p g) [
          | inl before ↦ inl before
          | inr e ↦ inr (ground (arith, e))
        ]
        | inr k ↦ inr (ground (arith, k))
      ]
  create_nodes-Known idx (Items.item Json.null items) m old p h =
      create_nodes-Known (idx + 1) items m old p h
  create_nodes-Known idx (Items.item (Json.bool b) items) m old p h =
      create_nodes-Known (idx + 1) items m old p h
  create_nodes-Known idx (Items.item (Json.int i) items) m old p h =
      create_nodes-Known (idx + 1) items m old p h
  create_nodes-Known idx (Items.item (Json.real r) items) m old p h =
      create_nodes-Known (idx + 1) items m old p h
  create_nodes-Known idx (Items.item (Json.str t) items) m old p h =
      create_nodes-Known (idx + 1) items m old p h
  create_nodes-Known idx (Items.item (Json.arr is) items) m old p h =
      create_nodes-Known (idx + 1) items m old p h

rewire_one_id : (m : IdMap) (fb : Option ℕ) (c : Created) → (rewire_one m fb c).id ≡ c.node.id
rewire_one_id m fb c = ground arith

rewire-found :
    (m : IdMap) (fb : Option ℕ) (cs : List Created) (x : ℕ)
    → In x (created_ids cs)
    → (nd : LoomNode) × (find_node (rewire m fb cs) x ≡ some nd)
unfolding rewire
rewire-found m fb [] x h = absurd (ground (arith, h))
rewire-found m fb (c ∷ cs) x h = elim (Bool-cases ((rewire_one m fb c).id == x)) [
  | inl e ↦ (rewire_one m fb c, find_here (rewire_one m fb c) (rewire m fb cs) x e)
  | inr e ↦
      let later : In x (created_ids cs) = ground (arith, h, e, rewire_one_id m fb c) in
      let (nd, f) = rewire-found m fb cs x later in
      (nd, find_later (rewire_one m fb c) (rewire m fb cs) x e ∙ f)
]

rewire-row :
    (m : IdMap) (fb : Option ℕ) (cs : List Created) (x : ℕ) (nd : LoomNode)
    → Parentless cs
    → find_node (rewire m fb cs) x ≡ some nd
    → (c : Created) × (nd ≡ rewire_one m fb c) × (c.node.parent_id ≡ none)
unfolding rewire
rewire-row m fb [] x nd h f = absurd (no_row x f)
rewire-row m fb (c ∷ cs) x nd (h, hs) f = elim (Bool-cases ((rewire_one m fb c).id == x)) [
  | inl e ↦ (c, some_inj (sym f ∙ find_here (rewire_one m fb c) (rewire m fb cs) x e), h)
  | inr e ↦
      rewire-row m fb cs x nd hs (sym (find_later (rewire_one m fb c) (rewire m fb cs) x e) ∙ f)
]

rehome-link :
    (fb : Option ℕ) (nd : LoomNode) (p : ℕ)
    → nd.parent_id ≡ none
    → (rehome fb nd).parent_id ≡ some p
    → fb ≡ some p
rehome-link fb nd p l h = ground arith

-- where a link comes from: the map, or the fallback
rewire-link :
    (m : IdMap) (fb : Option ℕ) (node : LoomNode) (j : Json) (p : ℕ)
    → node.parent_id ≡ none
    → (rewire_one m fb (record { node = node; old_parent = j })).parent_id ≡ some p
    → ((old : Text) × (map_get old m ≡ some p)) ⊎ (fb ≡ some p)
rewire-link m fb node Json.null p l h = absurd (ground (arith, l, h))
rewire-link m fb node (Json.str old) p l h = elim (Option-cases (map_get old m)) [
  | inl gone ↦ inr (ground (arith, l, h, gone))
  | inr (q, g) ↦ inl (old, ground (arith, h, g))
]
rewire-link m fb node (Json.bool b) p l h = inr (rehome-link fb node p l h)
rewire-link m fb node (Json.int i) p l h = inr (rehome-link fb node p l h)
rewire-link m fb node (Json.real r) p l h = inr (rehome-link fb node p l h)
rewire-link m fb node (Json.arr is) p l h = inr (rehome-link fb node p l h)
rewire-link m fb node (Json.obj fs) p l h = inr (rehome-link fb node p l h)

intended_roots-In : (cs : List Created) (p : ℕ) → In p (intended_roots cs) → In p (created_ids cs)
unfolding intended_roots
intended_roots-In [] p h = h
intended_roots-In (c ∷ cs) p h = ground (arith, h, intended_roots-In cs p)

abbrev sole : List ℕ → Option ℕ
sole [] = none
sole (r ∷ []) = some r
sole (r ∷ q ∷ rs) = none

sole-In : (rs : List ℕ) (p : ℕ) → sole rs ≡ some p → In p rs
sole-In [] p h = absurd (ground (arith, h))
sole-In (r ∷ []) p h = ground (arith, h)
sole-In (r ∷ q ∷ rs) p h = absurd (ground (arith, h))

fallback_root-sole : (cs : List Created) → fallback_root cs ≡ sole (intended_roots cs)
unfolding fallback_root
fallback_root-sole cs = ground arith

fallback_root-In : (cs : List Created) (p : ℕ) → fallback_root cs ≡ some p → In p (created_ids cs)
fallback_root-In cs p h =
    intended_roots-In cs p (sole-In (intended_roots cs) p (sym (fallback_root-sole cs) ∙ h))

rewire-AllFound :
    (m : IdMap) (fb : Option ℕ) (cs : List Created) (ids : List ℕ)
    → ((x : ℕ) → In x ids → In x (created_ids cs))
    → AllFound (rewire m fb cs) ids
rewire-AllFound m fb cs [] h = tt
rewire-AllFound m fb cs (x ∷ ids) h = (
  rewire-found m fb cs x (h x (ground (arith, beq_refl x))),
  rewire-AllFound m fb cs ids (λ y k. h y (ground (arith, k))),
)

rewire-Resolved :
    (m : IdMap) (fb : Option ℕ) (cs : List Created)
    → Parentless cs
    → ((old : Text) (p : ℕ) → map_get old m ≡ some p → In p (created_ids cs))
    → ((p : ℕ) → fb ≡ some p → In p (created_ids cs))
    → Resolved (rewire m fb cs)
rewire-Resolved m fb cs none_yet in_map in_fb x p nd f l =
    let (c, same, alone) = rewire-row m fb cs x nd none_yet f in
    elim (rewire-link m fb c.node c.old_parent p alone (sym (ap (λ n. n.parent_id) same) ∙ l)) [
      | inl (old, g) ↦ rewire-found m fb cs p (in_map old p g)
      | inr e ↦ rewire-found m fb cs p (in_fb p e)
    ]

-- Whatever entries a file has, each node that its import creates has links that lead to a root.
pub import_nodes-HasRoot :
    (loom_id now : ℕ) (fresh : ℕ → ℕ) (raw_nodes : Items)
    → All
        (HasRoot (import_nodes loom_id now fresh raw_nodes))
        (created_ids (create_nodes loom_id now fresh 0 raw_nodes []).1)
unfolding import_nodes map_get
import_nodes-HasRoot loom_id now fresh raw_nodes =
    let (m, cs) = create_nodes loom_id now fresh 0 raw_nodes [] in
    break_cycles-HasRoot (created_ids cs) (rewire m (fallback_root cs) cs)
      (rewire-Resolved m (fallback_root cs) cs
        (create_nodes-Parentless loom_id now fresh 0 raw_nodes [])
        (λ old p g. elim (create_nodes-Known loom_id now fresh 0 raw_nodes [] old p g) [
          | inl k ↦ absurd (ground (arith, k))
          | inr k ↦ k
        ])
        (fallback_root-In cs))
      (rewire-AllFound m (fallback_root cs) cs (created_ids cs) (λ x k. k))
