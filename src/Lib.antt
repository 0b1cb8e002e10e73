-- ===== src/Lib.antt =====
-- A model of the base model wrapper: the FastAPI service that meters, guards and forwards
-- completion requests to GPU backends, and keeps its users' trees of branching text.
--
-- The parts, in base_model_wrapper/src/wrapper/ where no other path is given:
--
--   Breaker       breaker.py. `BackendBreakers` is an association list from a model id to its
--                 `ModelState`; `allow`, `record_success`, `record_failure`, `reset`, `snapshot` and
--                 `circuit_open_payload` are functions on it that take the clock as an argument.
--                 Breaker/History runs any interleaving of calls and compares each model's
--                 counters with that model's own calls; Breaker/Transitions is about one call.
--   Keys          keys.py. The form of an API key (`generate`, `parse_prefix`).
--   Budget        auth.py, `clamp_max_tokens` of proxy.py and `_budget_preflight_clamp` of
--                 routes/api.py. Budget/Store has the tables, Budget/Usage the reading and the
--                 commit of usage, Budget/Caller the remaining budgets, Budget/Auth the bearer and
--                 the cookie authentication, Budget/Preflight the check before a completion.
--                 Budget/Spend, Budget/Ledger, Budget/Commit and Budget/Access have the proofs.
--   Completions   the validators of `CompletionsRequest` (schemas.py) and the length checks of
--                 services/completions.py, with the token counts on the four shapes of a prompt.
--   Availability  services/availability.py: uptime counts and downtime windows.
--   Loom          routes/loom.py with `Loom` and `LoomNode` of models.py. Loom/Node has the rows,
--                 Loom/Walk `_loom_prefix_for_node` and `_subtree_ids`, Loom/Edit the handlers
--                 that create, delete, edit, split and add nodes. Each handler takes what the
--                 request carries and the stored rows, and returns the response and the rows.
--                 Loom/Import has the node passes of `loom_import`, Loom/Command the handlers of
--                 Loom/Edit as one. Loom/Context, Split, Prefix, Cut, Stack, Subtree, Newlines,
--                 Resubmit, Guards, Cycles, Broken and Imported have the proofs.
--   ErrorKinds    error_kinds.py: the taxonomy of failures.
--   Proxy         proxy.py. Proxy/Retry has `_request_with_5xx_retry`, Proxy/Nonstream
--                 `post_nonstream` and `_modal_continuation_url`, Proxy/Body and Proxy/Passthrough
--                 `passthrough_post`, Proxy/Classify the labels of error bodies. The network is a
--                 function from the number of a request to the clock and to what httpx makes of
--                 it. Proxy/Trace, Returned, Continuation and Promises have the proofs about
--                 `post_nonstream`, Proxy/Delivery, Rounds and Termination those about
--                 `passthrough_post`; Proxy/Stream has `stream_post`, Proxy/Silence and Streaming
--                 its proofs.
--   Gate          `KeyConcurrencyGate` of routes/api.py: `acquire` and `release` as functions, a
--                 step for each stretch of a task between two awaits. Gate/Registry has
--                 `_get_key_semaphore`, Gate/Waiters, Invariant and Bounds the proofs.
--   Workbench     workbench_generations.py. Workbench has `GenerationState`, Workbench/Absorb
--                 `_absorb_chunk_text`, Workbench/Task the loop of `_run_generation_task`,
--                 Workbench/Finish its final writes, Workbench/Live `_gen_live` and the steps of a
--                 task and its subscribers, Workbench/Compare and Lanes the barrier that writes
--                 the snapshot of a Compare run, beside the client's POST of one in
--                 routes/workbench.py. Workbench/History is about the table of snapshots. Workbench/Frames, Reader, Generator, Replay and
--                 Drain have the proofs about the fan-out, Workbench/Barrier, LaneSteps and
--                 OneSnapshot those about the barrier.
--   LoomRun       workbench_generations.py, the generations of a loom: `LoomGenerationState`, with
--                 LoomRun/Chunk `_absorb_loom_chunk`, LoomRun/Task the loop of
--                 `_run_loom_generation_task`, LoomRun/Finish its final writes, LoomRun/Live
--                 `_loom_gen_live` and the steps of a task and its subscribers. LoomRun/Shown,
--                 Follow, Rounds, Events and Whole have the proofs.
--   Warm          warm_state.py, `_scaledown_window_for_key` and `_model_is_cold` of routes/api.py and
--                 `_resolve_model` of model_resolution.py; Warm/Cold has their lemmas.
--   BootStage     boot_stage.py: the stages of a cold boot; BootStage/Comment is about the progress
--                 bar.
--   Base          shared names, dictionaries, lists, sorting, text and JSON values.
--
-- A completion request is authenticated (Budget/Auth), validated (Completions/Request), checked
-- against its model's limits (Completions/Checks) and its caller's budgets (Budget/Preflight),
-- queued behind its key's other requests (Gate), refused while its backend's breaker is open
-- (Breaker), sent to the backend (Proxy), and its usage is committed afterwards
-- (Budget/Usage). Availability reads the rows that those requests leave behind. A loom's
-- generations are requests too; the tree handlers refuse to change the ancestors of a running one.
--
-- A workbench run is one task that relays a backend's stream to the browsers that watch it
-- (Workbench); it commits its usage through Budget/Usage.
--
-- Conventions. A text is a list of code points. Ids are numbers; the database draws fresh ones, so
-- an operation that inserts a row takes the new id. Times are numbers: milliseconds of the
-- monotonic clock in Breaker, Proxy and Workbench, microseconds in Availability. Bytes are
-- lists of code points. Errors are values. The hash function,
-- the tokenizer and the database's ON DELETE CASCADE are parameters.
--
-- Fuel. The prefix walk has a round for each row and one to stop, the subtree walk a round for the
-- root, one for each row and one to stop. Each round of the prefix walk sees an id for the first
-- time, and each round of the subtree walk takes an id off the stack, on which a row's id comes
-- only when its parent is visited, so these are enough. The walk that looks for a cycle in an
-- import has two rounds more than there are rows: each adds an id of a row to what it has seen.
--
-- `post_nonstream` has a round for the POST and one for each of the twenty redirects that it follows,
-- and a hop has its four attempts by recursion on the retries left. `passthrough_post` has a round
-- for each redirect and for each of the three retries of a 5xx and of a lost connection, and one
-- more, and `stream_post` one for each redirect, one for an empty body and one more. The theorems
-- on the three say that the fuel does not run out.
--
-- Not modelled: HTTP, templates, SQL and e-mail; `stream_post_with_status` of the proxy, whose
-- events the workbench's task takes; the logprobs of a workbench run and of
-- a loom's generation; export of looms and the metadata of an import; the serving scripts. In Budget
-- the concurrent requests of a key are not interleaved. In Workbench a chunk of the upstream is
-- taken to start with its data: one that starts with `event: done` would end a subscriber's stream.
pub mod Availability
pub mod Base
pub mod BootStage
pub mod Breaker
pub mod Budget
pub mod Completions
pub mod ErrorKinds
pub mod Gate
pub mod Keys
pub mod Loom
pub mod LoomRun
pub mod Proxy
pub mod Warm
pub mod Workbench
