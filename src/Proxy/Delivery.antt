-- ===== src/Proxy/Delivery.antt =====
-- What `passthrough_post` yields of a body.
use mathlib.Core.List.{append_assoc, append-nil}
use acs_base_model_api.Base.{
  ℕ, ◌≤◌, ◌≡◌, refl, sym, true, Bool-cases, ◌⊎◌, inl, inr, Option, none, some, List, [], ◌∷◌, ◌++◌,
  map, ltb, nat_eq,
}
use acs_base_model_api.Base.Lists.{length}
use acs_base_model_api.Base.Text.{Text}
use acs_base_model_api.Proxy.Body.{
  Ending, complete, cut_by_timeout, cut_by_error, cut_uncaught, concat, PassEnd, raised, escaped,
  Yielded, Where, cut_error, head_looks_like_completion, tiny_body, stream_body,
  passthrough_head_check_bytes,
}

-- an exception: one of the proxy, or one that no clause of it catches
abbrev pub IsException : PassEnd → Type 0
IsException (raised e) = Unit
IsException escaped = Unit
IsException _ = ⊥

-- an exception before the first byte
abbrev pub Fails : Yielded → Type 0
Fails y = (y.0 ≡ []) × IsException y.1

-- The chunks of a body: the status stands with the first, which looks like a completion or is the
-- body of an error, and together they are the whole.
abbrev pub Delivers : (status : ℕ) → Text → List (Text × Option ℕ) → Type 0
Delivers status whole ys =
    (head : Text) × (cs : List Text) × ((ys ≡ (head, some status) ∷ map (λ b. (b, none)) cs)
      × ((head ++ concat cs ≡ whole) × ((head_looks_like_completion head ≡ true) ⊎ (400 ≤ status))))

abbrev pub Yields : (status : ℕ) → Text → Yielded → Type 0
Yields status whole y = Fails y ⊎ Delivers status whole y.0

tiny_body-Yields :
    (here : Where) (status : ℕ) (head : Text) (ending : Ending)
    → Yields status head (tiny_body here status head ending)
unfolding tiny_body cut_error concat
tiny_body-Yields here status head complete = elim (Bool-cases (head_looks_like_completion head)) [
  | inl good ↦ rw good (inr (head, [], (refl, (append-nil head, inl good))))
  | inr bad ↦ rw bad (inl (refl, tt))
]
tiny_body-Yields here status head (cut_by_timeout reason) = inl (refl, tt)
tiny_body-Yields here status head (cut_by_error reason) = inl (refl, tt)
tiny_body-Yields here status head cut_uncaught = inl (refl, tt)

pub stream_body-Yields :
    (here : Where) (status : ℕ) (ending : Ending) (head : Text) (chunks : List Text)
    → Yields status (head ++ concat chunks) (stream_body here status ending head chunks)
unfolding stream_body concat
stream_body-Yields here status ending head [] =
    rw (append-nil head) (tiny_body-Yields here status head ending)
stream_body-Yields here status ending head (c ∷ cs) =
    let short = Bool-cases (ltb (length (head ++ c)) passthrough_head_check_bytes) in
    let whole = append_assoc head c (concat cs) in
    let later = stream_body-Yields here status ending (head ++ c) cs in
    elim (Bool-cases (head_looks_like_completion (head ++ c))) [
      | inl good ↦ elim short [
        | inl e ↦ rw (e, good) (inr (head ++ c, cs, (refl, (whole, inl good))))
        | inr e ↦ rw (e, good) (inr (head ++ c, cs, (refl, (whole, inl good))))
      ]
      | inr bad ↦ elim short [
        | inl e ↦ rw (e, bad, sym whole) later
        | inr e ↦ rw (e, bad) (inl (refl, tt))
      ]
    ]
