-- ===== src/BootStage.antt =====
-- base_model_wrapper/src/wrapper/boot_stage.py: the stages of a cold boot that users see. A stage's
-- label is that of STAGE_LABELS, and times are in microseconds.
pub mod Comment
pub mod Tests
use acs_base_model_api.Base.{
  ℕ, zero, suc, ◌+◌, ◌-◌, ◌*◌, ◌/◌, ◌%◌, Option, none, some, List, [], ◌∷◌, ◌++◌, ltb, nat_eq, ◌==◌,
  if◌then◌else◌,
}
use acs_base_model_api.Base.Lists.{length}
use acs_base_model_api.Base.Text.{Text, codes}
use acs_base_model_api.Base.Json.{text_eq}

pub data Stage : Type 0 where
  waiting_for_gpu : Stage
  container_started : Stage
  weights_loading : Stage
  weights_loaded : Stage
  engine_ready : Stage
  serving : Stage
  failed : Stage

unfoldable pub stage_label : Stage → Text
stage_label waiting_for_gpu = codes "Waiting for Modal to allocate GPUs"
stage_label container_started = codes "Container started"
stage_label weights_loading = codes "Loading model weights"
stage_label weights_loaded = codes "Weights loaded — initializing engine"
stage_label engine_ready = codes "Engine ready — opening port"
stage_label serving = codes "Model is up — request in flight"
stage_label failed = codes "Boot failed — vLLM exited during startup"

-- a stage that the container reports; waiting_for_gpu is only inferred
unfoldable pub reported_stage : Text → Option Stage
reported_stage key =
    if text_eq key (codes "container_started")
    then some container_started
    else if text_eq key (codes "weights_loading")
    then some weights_loading
    else if text_eq key (codes "weights_loaded")
    then some weights_loaded
    else if text_eq key (codes "engine_ready")
    then some engine_ready
    else if text_eq key (codes "serving")
    then some serving
    else if text_eq key (codes "failed")
    then some failed
    else none

-- `age_s` is None when the stage is inferred
pub record BootStage : Type 0 where
  pub stage : Stage
  pub age_s : Option ℕ

-- an entry of the Dict; `ts` is none where it is missing or no time
pub record Entry : Type 0 where
  pub stage : Text
  pub ts : Option ℕ

-- the age in seconds up to which a stage is shown
unfoldable pub horizon : Stage → ℕ
horizon serving = 10 * 60
horizon failed = 30 * 60
horizon _ = 45 * 60

unfoldable pub fresh : (now : ℕ) → Stage → Option ℕ → Option BootStage
unfolding horizon
fresh now stage none = none
fresh now stage (some ts) =
    let age = (now - ts) / 1000000 in
    if ltb (horizon stage) age then none else some (record { stage = stage; age_s = some age })

unfoldable pub interpret : (now : ℕ) → Option Entry → Option BootStage
unfolding reported_stage fresh
interpret now none = none
interpret now (some entry) = elim (reported_stage entry.stage) [
  | none ↦ none
  | some stage ↦ fresh now stage entry.ts
]

-- `status` is what `modal_ops.get_boot_status` returns
unfoldable pub for_cold_wait : (now : ℕ) → Option Entry → BootStage
unfolding interpret
for_cold_wait now status = elim (interpret now status) [
  | some st ↦ st
  | none ↦ record { stage = waiting_for_gpu; age_s = none }
]

abbrev pub bar_width : ℕ
bar_width = 20

abbrev pub bar_line_width : ℕ
bar_line_width = 80

-- `round(frac * _BAR_WIDTH)`: the fractions of _STAGE_FRACTION in twentieths
unfoldable pub filled : Stage → ℕ
filled waiting_for_gpu = 1
filled container_started = 5
filled weights_loading = 9
filled weights_loaded = 14
filled engine_ready = 18
filled serving = 19
filled failed = 20

unfoldable pub repeat : ℕ → ℕ → Text
repeat c zero = []
repeat c (suc n) = c ∷ repeat c n

-- the decimal digits of a number below 10 to the power of the fuel
unfoldable pub digits : (fuel n : ℕ) → Text
digits zero n = []
digits (suc fuel) n =
    let rest = digits fuel (n / 10) in
    if ltb n 10 then (b'0' + n % 10) ∷ [] else rest ++ (b'0' + n % 10) ∷ []

-- f"{elapsed_s // 60}m{elapsed_s % 60:02d}s", for waits below 10 ** 20 minutes
unfoldable pub fmt_elapsed : ℕ → Text
unfolding digits
fmt_elapsed elapsed_s =
    digits 20 (elapsed_s / 60)
    ++ (b'm' ∷ (b'0' + (elapsed_s % 60) / 10) ∷ (b'0' + elapsed_s % 60 % 10) ∷ b's' ∷ [])

-- `str.ljust` with spaces
unfoldable pub ljust : ℕ → Text → Text
unfolding repeat
ljust width t = t ++ repeat b' ' (width - length t)

-- the line after its colon and before its carriage return
unfoldable pub bar_text : Stage → ℕ → Text
unfolding filled repeat stage_label fmt_elapsed
bar_text stage elapsed_s =
    codes " ["
    ++ (repeat 9608 (filled stage)
        ++ (repeat 9617 (bar_width - filled stage)
            ++ (codes "] " ++ (stage_label stage ++ (codes " · " ++ fmt_elapsed elapsed_s)))))

unfoldable pub sse_comment : BootStage → ℕ → Text
unfolding ljust bar_text
sse_comment st elapsed_s = ljust bar_line_width (b':' ∷ bar_text st.stage elapsed_s) ++ 13 ∷ []
