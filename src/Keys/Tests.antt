-- ===== src/Keys/Tests.antt =====
-- A concrete API key.
use acs_base_model_api.Base.{ℕ, ◌≡◌, refl, Bool, true, ◌&&◌, some, [], ◌∷◌, arith}
use acs_base_model_api.Base.Text.{Text, codes}
use acs_base_model_api.Keys.{plaintext_of, parse_prefix, is_prefix_char, is_secret_char}
use acs_base_model_api.Keys.Roundtrip.{parse_prefix-plaintext_of}
use acs_base_model_api.Base.Lists.{All}

abbrev prefix : Text
prefix = codes "ab12cd34"

abbrev secret : Text
secret = codes "ABCDEFGHIJabcdefghij0123456789_-_-_-_-_-xyz"

abbrev all_chars : (ℕ → Bool) → Text → Bool
all_chars p [] = true
all_chars p (c ∷ t) = p c && all_chars p t

all_chars-All : (p : ℕ → Bool) (t : Text) → all_chars p t ≡ true → All (λ c. p c ≡ true) t
all_chars-All p [] h = tt
all_chars-All p (c ∷ t) h = (ground (arith, h), all_chars-All p t (ground (arith, h)))

parse_prefix-plaintext_of_example : parse_prefix (plaintext_of prefix secret) ≡ some prefix
parse_prefix-plaintext_of_example =
    parse_prefix-plaintext_of prefix secret refl (all_chars-All is_prefix_char prefix refl)
      (omega arith) (all_chars-All is_secret_char secret refl)
