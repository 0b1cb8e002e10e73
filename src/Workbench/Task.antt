-- ===== src/Workbench/Task.antt =====
-- `_run_generation_task` of workbench_generations.py: the loop over the upstream's events.
use acs_base_model_api.Base.{
  ℕ, ◌+◌, Bool, true, false, ◌||◌, Option, none, some, [], ◌∷◌, ◌++◌, leb, nat_eq, ◌==◌,
  if◌then◌else◌,
}
use acs_base_model_api.Base.Lists.{length}
use acs_base_model_api.Base.Text.{Text, codes}
use acs_base_model_api.Base.Json.{Json, str, obj, get_field}
use acs_base_model_api.Workbench.{
  Message, friendly, told, shown, exception, internal, StatusInfo, status_frame, chunk_frame,
  error_frame, GenerationState, broadcast, broadcast_status,
}
use acs_base_model_api.Workbench.Absorb.{
  Loaded, parsed, JsonLibrary, truthy, Absorbed, absorb_chunk_text,
}

abbrev pub generation_flush_chars : ℕ
generation_flush_chars = 500

abbrev pub generation_flush_interval_ms : ℕ
generation_flush_interval_ms = 1000

-- An event of `stream_post_with_status`. A chunk has the clock after it was sent on, and whether the
-- write of a flush succeeds; an error's status 0 is a failure of the network.
pub data Event : Type 0 where
  status_event : StatusInfo → Event
  chunk_event :
      (bytes : Text) (usage : Option (ℕ × ℕ)) (status_code : Option ℕ) (now : ℕ) (flushes : Bool)
      → Event
  error_event : (bytes : Text) (status_code : Option ℕ) (upstream_kind : Option Text) → Event
  stream_error : Event

-- the task's variables, and the row of the generation as it stands in the database
pub record Task : Type 0 where
  pub state : GenerationState
  pub upstream_status : ℕ
  pub upstream_error_kind : Option Text
  pub upstream_error_msg : Option Message
  pub saw_done : Bool
  pub upstream_model_echo : Option Text
  pub chars_since_flush : ℕ
  pub last_flush_at : ℕ
  pub flushed_text : Text
  pub looping : Bool

-- up to the loop: the first status is sent
unfoldable pub start_task : StatusInfo → (now : ℕ) → GenerationState → Task
unfolding broadcast_status
start_task sending now s = record {
  state = broadcast_status (status_frame sending) s;
  upstream_status = 200;
  upstream_error_kind = none;
  upstream_error_msg = none;
  saw_done = false;
  upstream_model_echo = none;
  chars_since_flush = 0;
  last_flush_at = now;
  flushed_text = [];
  looping = true;
}

-- `err.get("message")` of a dict, `str` of what is no text being `shown`
unfoldable pub said : JsonLibrary → ℕ → Json → Message
unfolding truthy
said lib code (str t) = if truthy lib (str t) then told t else friendly code
said lib code v = if truthy lib v then shown v else friendly code

unfoldable pub error_field : JsonLibrary → ℕ → Json → Message
unfolding said
error_field lib code (obj fs) = said lib code (get_field (codes "message") fs)
error_field lib code (str t) = told t
error_field lib code v = friendly code

-- `_parse_upstream_error_message`, where any exception leaves the friendly message
unfoldable pub message_of : JsonLibrary → ℕ → Loaded → Message
unfolding error_field
message_of lib code (parsed (obj fs)) = error_field lib code (get_field (codes "error") fs)
message_of lib code v = friendly code

-- `except Exception`
unfoldable pub on_exception : Task → Task
unfolding broadcast
on_exception t = record t {
  upstream_status = 500;
  upstream_error_kind = some (codes "internal_error");
  upstream_error_msg = some exception;
  state = broadcast (error_frame 500 (codes "internal_error") internal) t.state;
  looping = false;
}

-- a flush of the text, when enough of it or enough time has come
unfoldable pub flush_if_due : (now : ℕ) → (flushes : Bool) → Task → Task
flush_if_due now flushes t =
    if leb generation_flush_chars t.chars_since_flush
      || leb (t.last_flush_at + generation_flush_interval_ms) now
    then record t {
      flushed_text = if flushes then t.state.completion_text else t.flushed_text;
      chars_since_flush = 0;
      last_flush_at = now;
    }
    else t

abbrev pub or_else {ℓ} : {A : Type ℓ} → Option A → Option A → Option A
or_else none before = before
or_else (some a) before = some a

abbrev pub get_or {ℓ} : {A : Type ℓ} → A → Option A → A
get_or before none = before
get_or before (some a) = a

-- the text of a chunk is kept, and the chunk is sent on as it came
unfoldable pub take_chunk : (bytes : Text) → (usage : Option (ℕ × ℕ)) → Absorbed → Task → Task
unfolding broadcast
take_chunk bytes usage a t = record t {
  saw_done = a.saw_done || t.saw_done;
  upstream_model_echo = or_else a.model_echo t.upstream_model_echo;
  chars_since_flush = t.chars_since_flush + length a.delta;
  state = broadcast (chunk_frame bytes) (record t.state {
    usage = or_else usage t.state.usage;
    completion_text = t.state.completion_text ++ a.delta;
  });
}

unfoldable pub absorbed :
    (bytes : Text)
    → (usage : Option (ℕ × ℕ)) → (now : ℕ) → (flushes : Bool) → Option Absorbed
    → Task
    → Task
unfolding on_exception flush_if_due take_chunk
absorbed bytes usage now flushes none t =
    on_exception (record t { state = record t.state { usage = or_else usage t.state.usage } })
absorbed bytes usage now flushes (some a) t = flush_if_due now flushes (take_chunk bytes usage a t)

unfoldable pub on_chunk :
    JsonLibrary
    → (bytes : Text) → (usage : Option (ℕ × ℕ)) → (status_code : Option ℕ) → (now : ℕ)
    → (flushes : Bool) → Task
    → Task
unfolding absorbed absorb_chunk_text
on_chunk lib bytes usage status_code now flushes t =
    absorbed bytes usage now flushes (absorb_chunk_text lib bytes)
      (record t { upstream_status = get_or t.upstream_status status_code })

-- the event's own kind unless it is empty, and else one by the status
unfoldable pub error_code : (status_code : ℕ) → Option Text → Text
error_code code (some (c ∷ kind)) = c ∷ kind
error_code code _ =
    if code == 0
    then codes "upstream_unreachable"
    else if leb 500 code
    then codes "upstream_5xx"
    else codes "upstream_4xx"

unfoldable pub on_error : JsonLibrary → Text → Option ℕ → Option Text → Task → Task
unfolding broadcast error_code message_of
on_error lib bytes status_code upstream_kind t =
    let code = get_or 500 status_code in
    let shown_status = if code == 0 then 502 else code in
    let kind = error_code code upstream_kind in
    let message = message_of lib code (lib.loads bytes) in
    record t {
      upstream_status = shown_status;
      upstream_error_kind = some kind;
      upstream_error_msg = some message;
      state = broadcast (error_frame shown_status kind message) t.state;
      looping = false;
    }

-- the body of the `async for`
unfoldable pub on_event : JsonLibrary → Event → Task → Task
unfolding broadcast_status on_chunk on_error on_exception
on_event lib (status_event info) t = record t {
  state = broadcast_status (status_frame info) t.state;
}
on_event lib (chunk_event bytes usage code now flushes) t =
    on_chunk lib bytes usage code now flushes t
on_event lib (error_event bytes code kind) t = on_error lib bytes code kind t
on_event lib stream_error t = on_exception t

-- one round, with the check of `cancel_requested` before the event is looked at
unfoldable pub next_event : JsonLibrary → Event → Task → Task
unfolding on_event
next_event lib e t =
    if t.state.cancel_requested then record t { looping = false } else on_event lib e t
