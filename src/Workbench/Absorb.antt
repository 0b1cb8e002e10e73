-- ===== src/Workbench/Absorb.antt =====
-- `_absorb_chunk_text` of workbench_generations.py: the text of one SSE chunk.
use acs_base_model_api.Base.{
  ℕ, Bool, true, false, not, ◌&&◌, ◌||◌, Option, none, some, List, [], ◌∷◌, ◌++◌, leb, nat_eq, ◌==◌,
  if◌then◌else◌,
}
use mathlib.Core.List.{reverse}
use acs_base_model_api.Base.Text.{Text, codes, strip_prefix, strip}
use acs_base_model_api.Base.Json.{
  pos, Json, null, bool, int, real, str, arr, obj, end, item, stop, field, get_field, text_eq,
}

-- `json.loads` on bytes: a value, a JSONDecodeError, or another exception; and whether a number that
-- is no integer is zero
pub data Loaded : Type 0 where
  parsed : Json → Loaded
  malformed : Loaded
  undecodable : Loaded

pub record JsonLibrary : Type 0 where
  pub loads : Text → Loaded
  pub is_zero : Text → Bool

-- `bytes.splitlines`: the first line and the others. "\r\n" leaves an empty line between, which
-- carries no data.
unfoldable pub split_lines : Text → Text × List Text
split_lines [] = ([], [])
split_lines (c ∷ t) =
    let (line, lines) = split_lines t in
    if c == 10 || c == 13 then ([], line ∷ lines) else (c ∷ line, lines)

-- `bytes.strip`
abbrev pub is_byte_space : ℕ → Bool
is_byte_space c = (leb 9 c && leb c 13) || c == 32

unfoldable pub drop_byte_spaces : Text → Text
drop_byte_spaces [] = []
drop_byte_spaces (c ∷ t) = if is_byte_space c then drop_byte_spaces t else c ∷ t

unfoldable pub strip_bytes : Text → Text
unfolding drop_byte_spaces
strip_bytes t = reverse (drop_byte_spaces (reverse (drop_byte_spaces t)))

unfoldable pub is_empty : Text → Bool
is_empty [] = true
is_empty (c ∷ t) = false

-- Python's `bool` of a JSON value
unfoldable pub truthy : JsonLibrary → Json → Bool
unfolding is_empty
truthy lib null = false
truthy lib (bool b) = b
truthy lib (int (pos n)) = not (n == 0)
truthy lib (int _) = true
truthy lib (real t) = not (lib.is_zero t)
truthy lib (str t) = not (is_empty t)
truthy lib (arr end) = false
truthy lib (arr (item v vs)) = true
truthy lib (obj stop) = false
truthy lib (obj (field k v fs)) = true

-- what the lines read so far have given: the text, the sentinel, and the last model
pub record Absorbed : Type 0 where
  pub delta : Text
  pub saw_done : Bool
  pub model_echo : Option Text

-- `choices[0].get("text") or ""`; `none` is an exception, as everywhere below
unfoldable pub text_delta : JsonLibrary → Json → Option Text
unfolding truthy
text_delta lib (str t) = some t
text_delta lib v = if truthy lib v then none else some []

-- the text of `choices`, where `choices[0]` must be an index of it
unfoldable pub choice_text : JsonLibrary → Json → Option Text
unfolding truthy text_delta
choice_text lib (arr (item (obj fs) vs)) = text_delta lib (get_field (codes "text") fs)
choice_text lib (arr vs) = some []
choice_text lib (str t) = some []
choice_text lib v = if truthy lib v then none else some []

unfoldable pub echo_of : Json → Option Text → Option Text
unfolding is_empty strip
echo_of (str m) before = if is_empty (strip m) then before else some m
echo_of v before = before

unfoldable pub absorb_json : JsonLibrary → Json → Absorbed → Option Absorbed
unfolding choice_text echo_of
absorb_json lib (obj fs) acc = elim (choice_text lib (get_field (codes "choices") fs)) [
  | none ↦ none
  | some t ↦ some (record {
    delta = acc.delta ++ t;
    saw_done = acc.saw_done;
    model_echo = echo_of (get_field (codes "model") fs) acc.model_echo;
  })
]
absorb_json lib v acc = none

unfoldable pub absorb_loaded : JsonLibrary → Loaded → Absorbed → Option Absorbed
unfolding absorb_json
absorb_loaded lib (parsed v) acc = absorb_json lib v acc
absorb_loaded lib malformed acc = some acc
absorb_loaded lib undecodable acc = none

unfoldable pub absorb_payload : JsonLibrary → Text → Absorbed → Option Absorbed
unfolding absorb_loaded is_empty
absorb_payload lib payload acc =
    if text_eq payload (codes "[DONE]")
    then some (record { delta = acc.delta; saw_done = true; model_echo = acc.model_echo })
    else if is_empty payload
    then some acc
    else absorb_loaded lib (lib.loads payload) acc

unfoldable pub absorb_line : JsonLibrary → Text → Absorbed → Option Absorbed
unfolding absorb_payload strip_prefix strip_bytes
absorb_line lib line acc = elim (strip_prefix (codes "data: ") line) [
  | none ↦ some acc
  | some rest ↦ absorb_payload lib (strip_bytes rest) acc
]

unfoldable pub absorb_lines : JsonLibrary → List Text → Absorbed → Option Absorbed
unfolding absorb_line
absorb_lines lib [] acc = some acc
absorb_lines lib (line ∷ lines) acc = elim (absorb_line lib line acc) [
  | none ↦ none
  | some next ↦ absorb_lines lib lines next
]

unfoldable pub absorb_chunk_text : JsonLibrary → Text → Option Absorbed
unfolding absorb_lines split_lines
absorb_chunk_text lib bytes =
    let (line, lines) = split_lines bytes in
    absorb_lines lib (line ∷ lines) (record { delta = []; saw_done = false; model_echo = none })
