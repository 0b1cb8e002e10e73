-- ===== src/Proxy/Classify.antt =====
-- The labels of upstream error bodies in proxy.py: `_VLLM_ERROR_PATTERNS`,
-- `classify_upstream_error_body` and `_excerpt_body`, on texts of ISO-8859-1 and the letters that
-- `re.IGNORECASE` identifies with ASCII ones.
use acs_base_model_api.Base.{
  ℕ, Bool, true, false, ◌&&◌, ◌||◌, Option, none, some, List, [], ◌∷◌, leb, nat_eq, ◌==◌,
  if◌then◌else◌,
}
use acs_base_model_api.Base.Lists.{take}
use acs_base_model_api.Base.Text.{Text, codes, to_lower, strip_prefix, is_space, drop_spaces}
use acs_base_model_api.ErrorKinds.{ErrorKind}

-- the lower case that `re.IGNORECASE` compares: also dotted and dotless i, long s and the Kelvin sign
unfoldable pub fold_case : ℕ → ℕ
fold_case c =
    if c == 304 || c == 305
    then b'i'
    else if c == 383
    then b's'
    else if c == 8490
    then b'k'
    else to_lower c

unfoldable pub fold_text : Text → Text
unfolding fold_case
fold_text [] = []
fold_text (c ∷ t) = fold_case c ∷ fold_text t

unfoldable pub starts_with : Text → Text → Bool
unfolding strip_prefix
starts_with p t = elim (strip_prefix p t) [ none ↦ false | some rest ↦ true ]

unfoldable pub starts_with_any : List Text → Text → Bool
unfolding starts_with
starts_with_any [] t = false
starts_with_any (p ∷ ps) t = starts_with p t || starts_with_any ps t

-- `.*(a|b|c)`: one of the texts begins before the line ends
unfoldable pub later_on_line : List Text → Text → Bool
unfolding starts_with_any
later_on_line ps [] = starts_with_any ps []
later_on_line ps (c ∷ t) =
    starts_with_any ps (c ∷ t) || (if c == 10 then false else later_on_line ps t)

-- what follows a text at the start of another one
unfoldable pub after : Text → (Text → Bool) → Text → Bool
unfolding strip_prefix
after p next t = elim (strip_prefix p t) [ none ↦ false | some rest ↦ next rest ]

-- `\s+`, and then what follows the spaces
unfoldable pub after_spaces : (Text → Bool) → Text → Bool
unfolding drop_spaces
after_spaces next [] = false
after_spaces next (c ∷ t) = is_space c && next (drop_spaces t)

abbrev pub is_digit : ℕ → Bool
is_digit c = leb b'0' c && leb c b'9'

unfoldable pub drop_digits : Text → Text
drop_digits [] = []
drop_digits (c ∷ t) = if is_digit c then drop_digits t else c ∷ t

-- `\d+`, and then what follows the digits
unfoldable pub after_digits : (Text → Bool) → Text → Bool
unfolding drop_digits
after_digits next [] = false
after_digits next (c ∷ t) = is_digit c && next (drop_digits t)

-- `pattern.search`: the match is tried at each position
unfoldable pub search_text : (Text → Bool) → Text → Bool
search_text matches [] = matches []
search_text matches (c ∷ t) = matches (c ∷ t) || search_text matches t

-- the patterns on a folded text, in their order

abbrev pub is_context_length : Text → Bool
is_context_length t =
    starts_with_any (codes "maximum context length" ∷ codes "max_model_len" ∷ []) t
    || after (codes "exceeds") (later_on_line (codes "token" ∷ [])) t

abbrev pub is_oom : Text → Bool
is_oom =
    starts_with_any
      (codes "out of memory" ∷ codes "cuda out of memory" ∷ codes "oom" ∷ codes "cuda_oom" ∷ [])

abbrev pub is_engine_dead : Text → Bool
is_engine_dead t =
    after (codes "engine")
      (later_on_line (codes "dead" ∷ codes "crashed" ∷ codes "terminated" ∷ [])) t
    || after (codes "worker") (later_on_line (codes "crashed" ∷ [])) t

abbrev pub is_invalid_request : Text → Bool
is_invalid_request = starts_with_any (codes "invalid_request" ∷ codes "bad request" ∷ [])

abbrev pub is_layer_out_of_range : Text → Bool
is_layer_out_of_range =
    after (codes "layer_index")
      (after_spaces (after_digits (after_spaces (starts_with (codes "out of range")))))

abbrev pub vllm_error_patterns : List (ErrorKind × (Text → Bool))
vllm_error_patterns =
    (ErrorKind.vllm_context_length, is_context_length)
    ∷ (ErrorKind.vllm_oom, is_oom)
    ∷ (ErrorKind.vllm_engine_dead, is_engine_dead)
    ∷ (ErrorKind.vllm_invalid_request, is_invalid_request)
    ∷ (ErrorKind.vllm_invalid_request, is_layer_out_of_range)
    ∷ []

unfoldable pub first_match : List (ErrorKind × (Text → Bool)) → Text → Option ErrorKind
first_match [] t = none
first_match ((label, matches) ∷ rest) t =
    if search_text matches t then some label else first_match rest t

-- `_excerpt_body` of a text: `body[:limit]`
abbrev pub excerpt_body : Text → ℕ → Text
excerpt_body body limit = take limit body

-- an empty excerpt matches no pattern, and has no label
unfoldable pub classify_upstream_error_body : Text → Option ErrorKind
classify_upstream_error_body [] = none
classify_upstream_error_body (c ∷ t) =
    first_match vllm_error_patterns (fold_text (excerpt_body (c ∷ t) 4096))
