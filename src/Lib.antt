-- ===== src/Lib.antt =====
-- The agents runtime of crates/agents-core/src, with the realtime sessions of
-- crates/agents-realtime/src and an extension of crates/agents-extensions/src. A run of an agent
-- takes turns: it sends the input and the items generated so far to the model, and then hands over
-- to another agent, runs the tools that the model called, or ends with the model's answer.
-- Guardrails check the input, the output and each tool call. A tool that needs an approval pauses
-- the run: its state is saved, decided on and resumed, and the items generated so far are replayed
-- to the model. Servers of the Model Context Protocol bring further tools, and a manager connects
-- and disconnects them. The schemas of tools and outputs are rewritten into a strict subset. A
-- tracker remembers what a conversation on the server has been sent and has answered; a trimmer
-- shortens the tool outputs of older turns; a sandbox checks commands and paths before it runs or
-- opens them. A realtime session sends audio and text to a driver and keeps a log of events that
-- any number of streams read beside it.
--
-- The files, with the code that they are about (paths from crates/agents-core/src on, where
-- no crate is named):
--   Prelude      shared names, Boolean tests, and helpers on options and lists
--   Json         `serde_json::Value`, as the code reads and builds it
--   Items        items.rs, with their conversions in internal/items.rs and
--                internal/turn_resolution.rs
--   Replay       internal/items.rs: `compose_replay_input_items`, the search for an overlap
--                (`trailing_generated_overlap`) and the sanitizing of hosted tool items; Replay/Overlap
--                and Replay/Pairing prove what these two find and keep
--   RunState     run_state.rs: the state of a paused run; RunState/Merging is `merge_run_states` of
--                run.rs, RunState/Merge, RunState/Pending and RunState/Approvals hold the laws
--   ToolIdentity _tool_identity.rs: lookup keys, approval keys and the lookup map
--   Errors       errors.rs, exceptions.rs and the results of guardrails
--   Guardrails   internal/guardrails.rs
--   Tools        tool.rs, `ToolUseBehavior` of agent.rs and internal/approvals.rs; Tools/Exec is the
--                monad of computations that may fail and that write to a log of events;
--                Tools/Execute is internal/tool_execution.rs, its loop body as `run_call`; Tools/Gating
--                is about which tools may run, Tools/Answers about the outcome
--   Runner       run.rs: Runner/Handoffs has `resolve_handoff` and `apply_handoff_transition` with
--                handoff/history.rs, whose text format is Runner/Transcript; Runner/Turn has the loop
--                of `run_items_internal` (`turn` is one round, `run_turns` the loop), Runner/Run what
--                stands around it, Runner/Resume `resume` and `resume_pending_tool_approval`;
--                Runner/Approval and Runner/Resumed are about the tools that a run invokes,
--                Runner/Calls about how often it calls the model, Runner/Turns, Runner/Merged and
--                Runner/Solo about what it returns
--   Mcp          mcp/manager.rs: Mcp/Manager has the operations, Mcp/Settled, Mcp/Retried,
--                Mcp/Rollback and Mcp/Cleanup the laws
--   Memory       memory/session.rs, session_settings.rs and util.rs, and how a run reads and saves a
--                session, internal/session_persistence.rs; Memory/History has the laws
--   Conversation internal/oai_conversation.rs and `maybe_filter_model_input` of
--                internal/turn_preparation.rs: Conversation/Sources traces filtered items back to
--                prepared ones, Conversation/Tracker is `OpenAIServerConversationTracker`;
--                Conversation/Accounts, Conversation/Matching and Conversation/Once are about what is
--                traced and what is sent
--   Trimmer      crates/agents-extensions/src/extensions/tool_output_trimmer.rs: Trimmer/Calls finds
--                the recent items and the names of called tools, Trimmer/Schema shortens found tools,
--                Trimmer/Apply is `trim_item` and `apply`; Trimmer/Recent and Trimmer/Edited are about
--                what stays
--   StrictSchema strict_schema.rs: StrictSchema/Ensure is `ensure_node` in steps; StrictSchema/Steps,
--                StrictSchema/Branches and StrictSchema/Objects are about one step each,
--                StrictSchema/Stages and StrictSchema/Strict about the result; StrictSchema/Sizes,
--                StrictSchema/Ends and StrictSchema/Terminates about the recursion
--   Sandbox      sandbox/mod.rs, as far as it reads texts: Sandbox/Shell splits and quotes commands,
--                Sandbox/Paths is `validate_shell_command` and `resolve_path_for_access` before it asks
--                the file system; Sandbox/Quoting, Sandbox/Confined and Sandbox/Resolved have the laws
--   Realtime     crates/agents-realtime/src: Realtime/Config and Realtime/Settings are config.rs with
--                `merge` and `normalize_effective`, Realtime/Events is events.rs and model_events.rs,
--                Realtime/Session is session.rs, one function per operation, Realtime/Stream the steps
--                of `stream_events` beside a session; Realtime/Updates, Realtime/Replayed and
--                Realtime/Delivery have the laws
-- Each folder's Tests file has runs of the code and instances of the laws at concrete inputs.
--
-- State and effects. An async function is a function: what it awaits is run in the order of the code.
-- Where the code changes locals or `self`, the definition returns the new record. A computation that
-- calls the user's code or the model takes the log of all events so far and returns the longer log, so
-- that a callback may answer differently each time, and so that a law may speak of what was run. An
-- error is a value of `Result`; `?` is its bind.
--
-- Bounds. `usize` arithmetic wraps at 2 ^ 64 and `u32` usage saturates, as written in the code. The
-- loop of a run recurs on `max_turns`, which is the bound of the code's own `for`; every other loop
-- recurs on the list that it goes through. Fuel stands in two places: the decimal text of
-- a usize, where 20 digits are enough for 2 ^ 64, and `ensure_node`, whose recursion has no bound in
-- the code either; there the number of the schema's values is enough if no `allOf` and `$ref` occurs.
--
-- Parameters, since their code is not in the repository: `serde_json` to and from text (SerdeJson),
-- `futures::future::try_join_all` (TryJoinAll, with its documented contract), new UUIDs, the model,
-- and the user's tools, guardrails, filters, mappers and handlers; the servers of the MCP manager; the
-- driver of a realtime session; the fingerprint of an item, which is its JSON text, and the addresses
-- of the items that the conversation tracker is given.
--
-- Not modelled: runs with a session, and session callbacks that combine a history with an input;
-- other markers of a nested history than the default; a run with a tracker of a server-side
-- conversation, and `register_filtered_input_sources`, which only tests call; the file system, the
-- processes, the manifests and the symbolic links of sandboxes; tracing spans; the JSON of a run state;
-- the listing of tools by MCP servers (candidate_tools stands for it) and their transport; the
-- websocket driver of a realtime session; the models, the voice pipeline and the other
-- extensions, which are clients of services. A floating-point setting of a realtime session is kept as
-- its bits, since the code only copies it.
pub mod Conversation
pub mod Errors
pub mod Guardrails
pub mod Items
pub mod Json
pub mod Mcp
pub mod Memory
pub mod Prelude
pub mod Realtime
pub mod Replay
pub mod RunState
pub mod Runner
pub mod Sandbox
pub mod StrictSchema
pub mod ToolIdentity
pub mod Tools
pub mod Trimmer
