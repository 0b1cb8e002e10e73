-- ===== src/Keys.antt =====
-- base_model_wrapper/src/wrapper/keys.py: the form of an API key. The random source and SHA-256
-- are not modelled: `plaintext_of` takes the two random parts.
pub mod Roundtrip
pub mod Tests
use acs_base_model_api.Base.{
  ℕ, zero, suc, ◌-◌, Bool, true, false, ◌&&◌, ◌||◌, Option, none, some, List, [], ◌∷◌, ◌++◌, leb,
  nat_eq, ◌==◌, if◌then◌else◌,
}
use acs_base_model_api.Base.Lists.{length}
use acs_base_model_api.Base.Text.{Text, codes, strip_prefix}

abbrev pub prefix_len : ℕ
prefix_len = 8

abbrev pub key_tag : Text
key_tag = codes "acs-bm"

abbrev pub dash : ℕ
dash = b'-'

-- [a-z0-9]
abbrev pub is_prefix_char : ℕ → Bool
is_prefix_char c = (leb b'a' c && leb c b'z') || (leb b'0' c && leb c b'9')

-- [A-Za-z0-9_\-]
abbrev pub is_secret_char : ℕ → Bool
is_secret_char c = is_prefix_char c || ((leb b'A' c && leb c b'Z') || (c == b'_' || c == dash))

-- f"{KEY_TAG}-{prefix}-{secret}" of `generate`
unfoldable pub plaintext_of : Text → Text → Text
plaintext_of prefix secret = key_tag ++ (dash ∷ (prefix ++ (dash ∷ secret)))

-- the group `([a-z0-9]{n})`, with what follows it
unfoldable pub take_prefix : ℕ → Text → Option (Text × Text)
take_prefix zero t = some ([], t)
take_prefix (suc n) [] = none
take_prefix (suc n) (c ∷ t) =
    if is_prefix_char c
    then elim (take_prefix n t) [ none ↦ none | some (p, rest) ↦ some (c ∷ p, rest) ]
    else none

-- `[A-Za-z0-9_\-]{n,}$`, where `$` also matches before one newline at the end
unfoldable pub is_secret : ℕ → Text → Bool
is_secret n [] = n == 0
is_secret n (c ∷ t) =
    if is_secret_char c then is_secret (n - 1) t else c == 10 && (n == 0 && length t == 0)

-- the rest of the pattern, after the prefix group
unfoldable pub close_key : Text × Text → Option Text
unfolding is_secret
close_key (prefix, []) = none
close_key (prefix, c ∷ rest) = if c == dash && is_secret 40 rest then some prefix else none

unfoldable pub parse_prefix : Text → Option Text
unfolding strip_prefix take_prefix close_key
parse_prefix plaintext = elim (strip_prefix (codes "acs-bm-") plaintext) [
  | none ↦ none
  | some rest ↦ elim (take_prefix prefix_len rest) [ none ↦ none | some parts ↦ close_key parts ]
]
