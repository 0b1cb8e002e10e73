-- ===== src/Proxy/Body.antt =====
-- The body of a response in `passthrough_post` of proxy.py: its head is held back until it looks
-- like a completion. Chunks are lists of bytes.
use acs_base_model_api.Base.{
  ℕ, Bool, not, ◌&&◌, ◌||◌, Option, none, some, List, [], ◌∷◌, ◌++◌, map, ltb, max, nat_eq, ◌==◌,
  if◌then◌else◌,
}
use acs_base_model_api.Base.Lists.{length}
use acs_base_model_api.Base.Text.{Text, codes}
use acs_base_model_api.Proxy.{
  BackendContext, Reason, non_completion_body, network_failure, UpstreamError, upstream_unreachable,
  cold_boot_error,
}
use acs_base_model_api.Proxy.Classify.{starts_with, search_text}

abbrev pub passthrough_head_check_bytes : ℕ
passthrough_head_check_bytes = 4096

unfoldable pub head_looks_like_completion : Text → Bool
unfolding search_text starts_with
head_looks_like_completion head =
    search_text (starts_with (codes "\"choices\"")) head
    || search_text (starts_with (codes "\"usage\"")) head

-- how the bytes of a response end: all came, a ReadTimeout, another failure of the network that is
-- caught, or an exception that no clause catches, as of bytes that cannot be decompressed
pub data Ending : Type 0 where
  complete : Ending
  cut_by_timeout : Text → Ending
  cut_by_error : Text → Ending
  cut_uncaught : Ending

pub record Reply : Type 0 where
  pub status_code : ℕ
  pub location : Option Text
  pub chunks : List Text
  pub ending : Ending

-- how opening the stream ends; `open_uncaught` is an exception that no clause catches
pub data Opened : Type 0 where
  open_timeout : Text → Opened
  open_error : Text → Opened
  open_uncaught : Opened
  opened : Reply → Opened

pub record StreamHop : Type 0 where
  pub sent_at : ℕ
  pub result : Opened

-- `bytes(head)` after the chunks
unfoldable pub concat : List Text → Text
concat [] = []
concat (c ∷ cs) = c ++ concat cs

-- how the generator ends; `truncated` is an exception after bytes were yielded, and `escaped` one
-- before that is none of the proxy's
pub data PassEnd : Type 0 where
  done : PassEnd
  truncated : PassEnd
  escaped : PassEnd
  raised : UpstreamError → PassEnd

-- what it yields, and its end
abbrev pub Yielded : Type 0
Yielded = List (Text × Option ℕ) × PassEnd

-- the caller's context with the loop's `redirects` and `last_status`
pub record Where : Type 0 where
  pub ctx : BackendContext
  pub redirects : ℕ
  pub last_status : ℕ

unfoldable pub timeout_error : Where → Reason → UpstreamError
timeout_error here reason =
    if here.ctx.cold_hint || not (here.redirects == 0)
    then cold_boot_error here.last_status (max 1 here.redirects)
    else upstream_unreachable reason 1 here.ctx

-- a body that fails before any byte was yielded
unfoldable pub cut_error : Where → Ending → Option PassEnd
unfolding timeout_error
cut_error here complete = none
cut_error here (cut_by_timeout reason) = some (raised (timeout_error here (network_failure reason)))
cut_error here (cut_by_error reason) =
    some (raised (upstream_unreachable (network_failure reason) 1 here.ctx))
cut_error here cut_uncaught = some escaped

abbrev pub passed_end : Ending → PassEnd
passed_end complete = done
passed_end _ = truncated

abbrev pub non_completion : Where → Yielded
non_completion here = ([], raised (upstream_unreachable non_completion_body 1 here.ctx))

-- after the last chunk, with nothing yielded
unfoldable pub tiny_body : Where → (status : ℕ) → Text → Ending → Yielded
unfolding cut_error
tiny_body here status head ending = elim (cut_error here ending) [
  | some e ↦ ([], e)
  | none ↦
      if head_looks_like_completion head
      then ((head, some status) ∷ [], done)
      else non_completion here
]

-- the `async for` over the chunks, while the head is held back and after
unfoldable pub stream_body : Where → (status : ℕ) → Ending → (head : Text) → List Text → Yielded
unfolding tiny_body
stream_body here status ending head [] = tiny_body here status head ending
stream_body here status ending head (c ∷ cs) =
    let ok = head_looks_like_completion (head ++ c) in
    if ltb (length (head ++ c)) passthrough_head_check_bytes && not ok
    then stream_body here status ending (head ++ c) cs
    else if not ok
    then non_completion here
    else ((head ++ c, some status) ∷ map (λ b. (b, none)) cs, passed_end ending)
