-- ===== src/Loom/Node.antt =====
-- The rows of a loom (models.py: `Loom`, `LoomNode`) and the helpers of routes/loom.py that read
-- them. Row ids are numbers; the database draws a new one at random, so an operation that inserts
-- rows takes the new ids as arguments.
use acs_base_model_api.Base.{
  ℕ, Bool, true, false, ◌&&◌, Option, none, some, List, [], ◌∷◌, leb, nat_eq, ◌==◌, if◌then◌else◌,
}
use acs_base_model_api.Base.Json.{ℤ, pos, leb_ℤ, suc_ℤ, Items}
use acs_base_model_api.Base.Lists.{select}
use acs_base_model_api.Base.Sort.{sort_by}
use acs_base_model_api.Base.Text.{Text}

pub record LoomNode : Type 0 where
  pub id : ℕ
  pub loom_id : ℕ
  pub parent_id : Option ℕ
  pub text : Text
  pub model : Option Text
  pub seed : Option ℤ
  pub position : ℤ
  pub logprobs : Option Items
  pub created_at : ℕ

pub record Loom : Type 0 where
  pub id : ℕ
  pub user_id : ℕ
  pub title : Text
  pub model : Option Text
  pub updated_at : ℕ
  pub archived_at : Option ℕ

pub record Store : Type 0 where
  pub looms : List Loom
  pub nodes : List LoomNode

abbrev pub is_parent : ℕ → LoomNode → Bool
is_parent p nd = elim nd.parent_id [ none ↦ false | some q ↦ q == p ]

-- `nodes_by_id.get`: ids are a primary key
unfoldable pub find_node : List LoomNode → ℕ → Option LoomNode
find_node [] id = none
find_node (nd ∷ nds) id = if nd.id == id then some nd else find_node nds id

abbrev pub is_owned : ℕ → ℕ → Loom → Bool
is_owned loom_id user_id l =
    l.id == loom_id
    && (l.user_id == user_id && (elim l.archived_at [ none ↦ true | some _ ↦ false ]))

unfoldable pub find_loom : (Loom → Bool) → List Loom → Option Loom
find_loom p [] = none
find_loom p (l ∷ ls) = if p l then some l else find_loom p ls

unfoldable pub get_owned_loom : Store → ℕ → ℕ → Option Loom
get_owned_loom s loom_id user_id = find_loom (is_owned loom_id user_id) s.looms

-- \r\n to \n, then every \r that is left to \n
unfoldable pub replace_crlf : Text → Text
replace_crlf [] = []
replace_crlf (c ∷ []) = c ∷ []
replace_crlf (c ∷ d ∷ t) =
    if c == 13 && d == 10 then 10 ∷ replace_crlf t else c ∷ replace_crlf (d ∷ t)

unfoldable pub replace_cr : Text → Text
replace_cr [] = []
replace_cr (c ∷ t) = (if c == 13 then 10 else c) ∷ replace_cr t

unfoldable pub normalize_newlines : Text → Text
unfolding replace_crlf replace_cr
normalize_newlines t = replace_cr (replace_crlf t)

-- `position` first, then `created_at`
abbrev pub node_le : LoomNode → LoomNode → Bool
node_le a b =
    if leb_ℤ a.position b.position
    then (if leb_ℤ b.position a.position then leb a.created_at b.created_at else true)
    else false

unfoldable pub loom_nodes : Store → ℕ → List LoomNode
loom_nodes s loom_id = sort_by node_le (select (λ nd. nd.loom_id == loom_id) s.nodes)

-- whether two parent links are the same, roots included
abbrev pub same_parent : Option ℕ → LoomNode → Bool
same_parent none nd = elim nd.parent_id [ none ↦ true | some _ ↦ false ]
same_parent (some p) nd = is_parent p nd

-- max(position) over the siblings
unfoldable pub max_position : (LoomNode → Bool) → List LoomNode → Option ℤ
max_position p [] = none
max_position p (nd ∷ nds) =
    let rest = max_position p nds in
    if p nd
    then elim rest [
      | none ↦ some nd.position
      | some m ↦ some (if leb_ℤ nd.position m then m else nd.position)
    ]
    else rest

unfoldable pub next_sibling_position : Store → ℕ → Option ℕ → ℤ
unfolding max_position
next_sibling_position s loom_id parent_id =
    elim (max_position (λ nd. nd.loom_id == loom_id && same_parent parent_id nd) s.nodes) [
      | none ↦ pos 0
      | some m ↦ suc_ℤ m
    ]

abbrev pub touch_all : ℕ → ℕ → List Loom → List Loom
touch_all now loom_id [] = []
touch_all now loom_id (l ∷ ls) =
    (if l.id == loom_id then record l { updated_at = now } else l) ∷ touch_all now loom_id ls

unfoldable pub touch : ℕ → ℕ → Store → Store
touch now loom_id s = record s { looms = touch_all now loom_id s.looms }
