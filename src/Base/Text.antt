-- ===== src/Base/Text.antt =====
-- Text as a list of code points, for the code that walks its characters.
use Prim.Native.Char.{code}
use acs_base_model_api.Base.{
  ℕ, ◌+◌, String, Bool, ◌&&◌, ◌||◌, Option, none, some, List, [], ◌∷◌, leb, nat_eq, ◌==◌,
  if◌then◌else◌,
}
use mathlib.Core.List.{reverse}

abbrev pub Text : Type 0
Text = List ℕ

abbrev pub codes : String → Text
codes String.[] = []
codes (String.◌∷◌ c s) = code c ∷ codes s

-- `str.lower` on the characters that can lower to ASCII
abbrev pub to_lower : ℕ → ℕ
to_lower c = if leb b'A' c && leb c b'Z' then c + 32 else c

-- `str.startswith`: what follows the prefix, if the text begins with it
unfoldable pub strip_prefix : Text → Text → Option Text
strip_prefix [] t = some t
strip_prefix (p ∷ ps) [] = none
strip_prefix (p ∷ ps) (c ∷ t) = if p == c then strip_prefix ps t else none

-- the characters of ISO-8859-1 that `str.strip` removes
abbrev pub is_space : ℕ → Bool
is_space c = (leb 9 c && leb c 13) || ((leb 28 c && leb c 32) || (c == 133 || c == 160))

unfoldable pub drop_spaces : Text → Text
drop_spaces [] = []
drop_spaces (c ∷ t) = if is_space c then drop_spaces t else c ∷ t

unfoldable pub strip : Text → Text
unfolding drop_spaces
strip t = reverse (drop_spaces (reverse (drop_spaces t)))
