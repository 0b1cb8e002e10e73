-- ===== src/BootStage/Comment.antt =====
-- A progress bar is a pure SSE comment.
use acs_base_model_api.Base.{
  ℕ, zero, suc, ◌-◌, ◌/◌, ◌≤◌, ◌≡◌, refl, Bool-cases, inl, inr, [], ◌∷◌, ◌++◌, ltb, arith,
}
use acs_base_model_api.Base.Lists.{length, All, All-append}
use acs_base_model_api.Base.Text.{Text, codes}
use acs_base_model_api.BootStage.{
  Stage, waiting_for_gpu, container_started, weights_loading, weights_loaded, engine_ready, serving,
  failed, stage_label, BootStage, filled, repeat, digits, fmt_elapsed, ljust, bar_text, sse_comment,
  bar_line_width,
}

-- a character that is no control character of ASCII, and so ends no line
abbrev pub Inline : ℕ → Type 0
Inline c = 32 ≤ c

repeat-Inline : (c n : ℕ) → Inline c → All Inline (repeat c n)
unfolding repeat
repeat-Inline c zero h = tt
repeat-Inline c (suc n) h = (h, repeat-Inline c n h)

digits-Inline : (fuel n : ℕ) → All Inline (digits fuel n)
unfolding digits
digits-Inline zero n = tt
digits-Inline (suc fuel) n = elim (Bool-cases (ltb n 10)) [
  | inl last ↦ rw last (omega arith, tt)
  | inr more ↦
      rw more
        (All-append Inline (digits fuel (n / 10)) _ (digits-Inline fuel (n / 10)) (omega arith, tt))
]

fmt_elapsed-Inline : (e : ℕ) → All Inline (fmt_elapsed e)
unfolding fmt_elapsed
fmt_elapsed-Inline e =
    All-append Inline (digits 20 (e / 60)) _ (digits-Inline 20 (e / 60))
      (omega arith, (omega arith, (omega arith, (omega arith, tt))))

label-Inline : (stage : Stage) → All Inline (stage_label stage)
unfolding stage_label
label-Inline waiting_for_gpu = omega arith
label-Inline container_started = omega arith
label-Inline weights_loading = omega arith
label-Inline weights_loaded = omega arith
label-Inline engine_ready = omega arith
label-Inline serving = omega arith
label-Inline failed = omega arith

bar_text-Inline : (stage : Stage) (e : ℕ) → All Inline (bar_text stage e)
unfolding bar_text
bar_text-Inline stage e = All-append Inline (codes " [") _ (omega arith) (
    All-append Inline (repeat 9608 (filled stage)) _
      (repeat-Inline 9608 (filled stage) (omega arith))
      (All-append Inline (repeat 9617 (20 - filled stage)) _
        (repeat-Inline 9617 (20 - filled stage) (omega arith))
        (All-append Inline (codes "] ") _ (omega arith) (
          All-append Inline (stage_label stage) _ (label-Inline stage)
            (All-append Inline (codes " · ") _ (omega arith) (fmt_elapsed-Inline e))))))

-- A frame of the progress bar is a pure SSE comment, whatever the stage and the wait: it begins with
-- a colon and ends with a carriage return, and no character between the two is a newline, a carriage
-- return or another code below that of the space.
pub sse_comment-Inline :
    (st : BootStage) (e : ℕ)
    → (text : Text) × ((sse_comment st e ≡ b':' ∷ (text ++ 13 ∷ [])) × All Inline text)
unfolding sse_comment ljust
sse_comment-Inline st e = (
  bar_text st.stage e ++ repeat b' ' (bar_line_width - suc (length (bar_text st.stage e))),
  (
    refl,
    All-append Inline (bar_text st.stage e) _ (bar_text-Inline st.stage e)
        (repeat-Inline b' ' _ (omega arith)),
  ),
)
