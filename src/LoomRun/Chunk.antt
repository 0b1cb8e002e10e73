-- ===== src/LoomRun/Chunk.antt =====
-- `_absorb_loom_chunk` of workbench_generations.py: the texts of one SSE chunk by their choice index.
use acs_base_model_api.Base.{
  Bool, true, false, Option, none, some, List, [], ◌∷◌, ◌++◌, if◌then◌else◌,
}
use acs_base_model_api.Base.Text.{Text, codes, strip_prefix}
use acs_base_model_api.Base.Json.{
  ℤ, pos, Json, int, str, arr, obj, Items, end, item, get_field, text_eq, leb_ℤ,
}
use acs_base_model_api.Workbench.Absorb.{
  Loaded, parsed, malformed, undecodable, JsonLibrary, split_lines, strip_bytes, is_empty, truthy,
  text_delta,
}

-- `int` of a value that is no integer; `none` is an exception, as everywhere below
pub record IntLibrary : Type 0 where
  pub json : JsonLibrary
  pub int_of : Json → Option ℤ

-- `int(choice.get("index", 0) or 0)`
unfoldable pub choice_index : IntLibrary → Json → Option ℤ
unfolding truthy
choice_index lib (int i) = some i
choice_index lib v = if truthy lib.json v then lib.int_of v else some (pos 0)

abbrev pub eq_ℤ : ℤ → ℤ → Bool
eq_ℤ i j = if leb_ℤ i j then leb_ℤ j i else false

-- `by_index.setdefault(idx, …)["text"] += delta`
unfoldable pub add_text : ℤ → Text → List (ℤ × Text) → List (ℤ × Text)
add_text i delta [] = (i, delta) ∷ []
add_text i delta ((j, t) ∷ slots) =
    let others = add_text i delta slots in
    if eq_ℤ i j then (j, t ++ delta) ∷ slots else (j, t) ∷ others

abbrev pub LoomAbsorbed : Type 0
LoomAbsorbed = List (ℤ × Text) × Bool

unfoldable pub absorb_choice : IntLibrary → Json → LoomAbsorbed → Option LoomAbsorbed
unfolding choice_index text_delta add_text
absorb_choice lib (obj fs) (slots, done) = elim (choice_index lib (get_field (codes "index") fs)) [
  | none ↦ none
  | some i ↦ elim (text_delta lib.json (get_field (codes "text") fs)) [
    | none ↦ none
    | some delta ↦ some (add_text i delta slots, done)
  ]
]
absorb_choice lib v acc = some acc

unfoldable pub absorb_items : IntLibrary → Items → LoomAbsorbed → Option LoomAbsorbed
unfolding absorb_choice
absorb_items lib end acc = some acc
absorb_items lib (item v vs) acc = elim (absorb_choice lib v acc) [
  | none ↦ none
  | some next ↦ absorb_items lib vs next
]

-- `for choice in obj.get("choices") or []`: the characters of a text and the keys of an object are no
-- choices
unfoldable pub absorb_choices : IntLibrary → Json → LoomAbsorbed → Option LoomAbsorbed
unfolding absorb_items truthy
absorb_choices lib (arr vs) acc = absorb_items lib vs acc
absorb_choices lib (str t) acc = some acc
absorb_choices lib (obj fs) acc = some acc
absorb_choices lib v acc = if truthy lib.json v then none else some acc

unfoldable pub absorb_loaded : IntLibrary → Loaded → LoomAbsorbed → Option LoomAbsorbed
unfolding absorb_choices
absorb_loaded lib (parsed (obj fs)) acc = absorb_choices lib (get_field (codes "choices") fs) acc
absorb_loaded lib (parsed v) acc = none
absorb_loaded lib malformed acc = some acc
absorb_loaded lib undecodable acc = none

unfoldable pub absorb_payload : IntLibrary → Text → LoomAbsorbed → Option LoomAbsorbed
unfolding absorb_loaded is_empty
absorb_payload lib payload (slots, done) =
    if text_eq payload (codes "[DONE]")
    then some (slots, true)
    else if is_empty payload
    then some (slots, done)
    else absorb_loaded lib (lib.json.loads payload) (slots, done)

unfoldable pub absorb_line : IntLibrary → Text → LoomAbsorbed → Option LoomAbsorbed
unfolding absorb_payload strip_prefix strip_bytes
absorb_line lib line acc = elim (strip_prefix (codes "data: ") line) [
  | none ↦ some acc
  | some rest ↦ absorb_payload lib (strip_bytes rest) acc
]

unfoldable pub absorb_lines : IntLibrary → List Text → LoomAbsorbed → Option LoomAbsorbed
unfolding absorb_line
absorb_lines lib [] acc = some acc
absorb_lines lib (line ∷ lines) acc = elim (absorb_line lib line acc) [
  | none ↦ none
  | some next ↦ absorb_lines lib lines next
]

unfoldable pub absorb_loom_chunk : IntLibrary → Text → Option LoomAbsorbed
unfolding absorb_lines split_lines
absorb_loom_chunk lib bytes =
    let (line, lines) = split_lines bytes in absorb_lines lib (line ∷ lines) ([], false)
