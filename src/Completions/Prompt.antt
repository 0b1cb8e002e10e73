-- ===== src/Completions/Prompt.antt =====
-- The prompt of a completion request: the four shapes that `CompletionsRequest` accepts, and the
-- token and batch counts on them (schemas.py, services/completions.py).
use acs_base_model_api.Base.{ℕ, ◌+◌, max, List, [], ◌∷◌}
use acs_base_model_api.Base.Lists.{length}

-- a text is its code points
abbrev pub Text : Type 0
Text = List ℕ

pub data Prompt : Type 0 where
  text : Text → Prompt
  texts : List Text → Prompt
  tokens : List ℕ → Prompt
  token_batch : List (List ℕ) → Prompt

-- `counter.count` of tokenizer.py, whose model is a download: a parameter
abbrev pub Counter : Type 0
Counter = Text → ℕ

unfoldable pub count_texts : Counter → List Text → ℕ
count_texts count [] = 0
count_texts count (p ∷ ps) = count p + count_texts count ps

unfoldable pub count_batch : List (List ℕ) → ℕ
count_batch [] = 0
count_batch (p ∷ ps) = length p + count_batch ps

unfoldable pub count_prompt_tokens : Prompt → Counter → ℕ
unfolding count_texts count_batch
count_prompt_tokens (text t) count = count t
count_prompt_tokens (texts ts) count = count_texts count ts
count_prompt_tokens (tokens ids) count = length ids
count_prompt_tokens (token_batch ps) count = count_batch ps

unfoldable pub prompt_batch_size : Prompt → ℕ
prompt_batch_size (text t) = 1
prompt_batch_size (texts ts) = max 1 (length ts)
prompt_batch_size (tokens []) = max 1 0
prompt_batch_size (tokens (i ∷ ids)) = 1
prompt_batch_size (token_batch ps) = max 1 (length ps)
