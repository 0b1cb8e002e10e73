-- ===== src/Keys/Roundtrip.antt =====
-- `parse_prefix` and the generated keys.
use acs_base_model_api.Base.{
  ℕ, zero, suc, ◌-◌, ◌≤◌, ◌≡◌, refl, true, some, [], ◌∷◌, ◌++◌, arith, nat_eq,
}
use acs_base_model_api.Base.Lists.{length, All}
use acs_base_model_api.Base.Text.{Text}
use acs_base_model_api.Keys.{
  prefix_len, dash, is_prefix_char, is_secret_char, plaintext_of, take_prefix, is_secret,
  parse_prefix,
}

take_prefix-append :
    (n : ℕ) (p rest : Text)
    → length p ≡ n
    → All (λ c. is_prefix_char c ≡ true) p
    → take_prefix n (p ++ rest) ≡ some (p, rest)
unfolding take_prefix
take_prefix-append zero [] rest e h = refl
take_prefix-append zero (c ∷ p) rest e h = absurd (omega arith)
take_prefix-append (suc n) [] rest e h = absurd (omega arith)
take_prefix-append (suc n) (c ∷ p) rest e h =
    rw (h.0, take_prefix-append n p rest (omega arith) h.1)

is_secret-long :
    (n : ℕ) (s : Text) → n ≤ length s → All (λ c. is_secret_char c ≡ true) s → is_secret n s ≡ true
unfolding is_secret
is_secret-long n [] e h = ground arith
is_secret-long n (c ∷ s) e h = rw h.0 (is_secret-long (n - 1) s (omega arith) h.1)

-- A key made of eight prefix characters and at least forty secret characters is read back: its
-- prefix is found.
pub parse_prefix-plaintext_of :
    (prefix secret : Text)
    → length prefix ≡ prefix_len
    → All (λ c. is_prefix_char c ≡ true) prefix
    → 40 ≤ length secret
    → All (λ c. is_secret_char c ≡ true) secret
    → parse_prefix (plaintext_of prefix secret) ≡ some prefix
unfolding parse_prefix plaintext_of
parse_prefix-plaintext_of prefix secret n hp m hs = ground (
  arith,
  take_prefix-append prefix_len prefix (dash ∷ secret) n hp,
  is_secret-long 40 secret m hs,
)
