-- ===== src/Realtime/Events.antt =====
-- The events of a realtime session, crates/agents-realtime/src/events.rs and model_events.rs, and
-- what becomes of a model's events, `realtime_events_from_model_events` of session.rs.
use openai_agents_rust.Prelude.{ℕ, String, true, Option, List, [], ◌∷◌, ◌++◌, length, unwrap_or}
use openai_agents_rust.Json.{Value, null, bool, number, string, object, field, end, opt_string}
use openai_agents_rust.Runner.Transcript.{decimal_from, decimal}

pub record RealtimeEventInfo : Type 0 where
  pub session_id : Option String
  pub agent_name : Option String

-- `raw_model_event event_type payload`, `tool_start call_id name`,
-- `handoff from_agent to_agent`, `session_updated info model`
pub data RealtimeEvent : Type 0 where
  agent_start agent_end session_closed : RealtimeEventInfo → RealtimeEvent
  handoff : Option String → Option String → RealtimeEvent
  tool_start tool_end tool_approval_required : String → String → RealtimeEvent
  raw_model_event : String → Value → RealtimeEvent
  transcript_delta : String → RealtimeEvent
  interrupted : Option String → RealtimeEvent
  session_updated : RealtimeEventInfo → Option String → RealtimeEvent
  error : String → RealtimeEvent

-- `tool_call call_id name arguments`, `response_done response_id request_id payload`
pub data RealtimeModelEvent : Type 0 where
  error : String → RealtimeModelEvent
  tool_call : String → String → String → RealtimeModelEvent
  audio : List ℕ → RealtimeModelEvent
  audio_interrupted : Option String → RealtimeModelEvent
  audio_done : ℕ → RealtimeModelEvent
  transcript_delta : String → RealtimeModelEvent
  response_done : Option String → Option String → Option Value → RealtimeModelEvent

unfoldable pub events_of : RealtimeModelEvent → List RealtimeEvent
unfolding decimal_from
events_of (RealtimeModelEvent.error message) = RealtimeEvent.error message ∷ []
events_of (RealtimeModelEvent.tool_call call_id name arguments) =
    tool_start call_id name
    ∷ raw_model_event "tool_call" (
        object (
          field "arguments_redacted" (bool true)
            (field "call_id" (string call_id) (field "name" (string name) end))))
    ∷ []
events_of (RealtimeModelEvent.audio bytes) =
    raw_model_event "audio" (object (field "bytes" (number (decimal (length bytes))) end)) ∷ []
events_of (RealtimeModelEvent.audio_interrupted reason) = interrupted reason ∷ []
events_of (RealtimeModelEvent.audio_done total_bytes) =
    raw_model_event "audio_done" (object (field "total_bytes" (number (decimal total_bytes)) end))
    ∷ []
events_of (RealtimeModelEvent.transcript_delta t) = RealtimeEvent.transcript_delta t ∷ []
events_of (RealtimeModelEvent.response_done response_id request_id payload) =
    raw_model_event "response_done" (
      object (
        field "payload" (unwrap_or payload null) (
          field "request_id" (opt_string request_id)
            (field "response_id" (opt_string response_id) end))))
    ∷ []

unfoldable pub realtime_events_from_model_events : List RealtimeModelEvent → List RealtimeEvent
unfolding events_of
realtime_events_from_model_events [] = []
realtime_events_from_model_events (e ∷ es) = events_of e ++ realtime_events_from_model_events es
