-- ===== src/Realtime/Session.antt =====
-- `RealtimeSession` of crates/agents-realtime/src/session.rs. Each change of the shared state under
-- its lock is one write, and an operation is a run of writes and of calls of the model's driver.
-- The driver is not the session's: its answers may depend on the calls so far.
use openai_agents_rust.Prelude.{
  ℕ, ◌+◌, ◌%◌, String, Bool, true, false, Option, none, some, List, [], ◌∷◌, ◌++◌, length,
  if◌then◌else◌, or_option, unwrap_or, str_eq, str_option_eq,
}
use mathlib.Core.Option
use openai_agents_rust.Json.{Value, number, object, field, end, get}
use openai_agents_rust.Errors.{Result, ok, err}
use openai_agents_rust.ToolIdentity.{concat}
use openai_agents_rust.RunState.{usize_mod}
use openai_agents_rust.Runner.Transcript.{parse_usize, decimal_from, decimal}
use openai_agents_rust.Realtime.Settings.{
  RealtimeSessionModelSettings, merge, normalize_effective, without_clear_markers,
}
use openai_agents_rust.Realtime.Events.{
  RealtimeEvent, RealtimeModelEvent, realtime_events_from_model_events, raw_model_event,
  interrupted, agent_start, agent_end, session_updated, session_closed, RealtimeEventInfo,
}

pub record RealtimePlaybackState : Type 0 where
  pub playing : Bool
  pub buffered_audio_ms : ℕ

pub record RealtimeAgent : Type 0 where
  pub name : String
  pub instructions : Option String
  pub model_settings : Option RealtimeSessionModelSettings

pub record RealtimeSessionState : Type 0 where
  pub connected : Bool
  pub closed : Bool
  pub transcript : String
  pub events : List RealtimeEvent
  pub active_agent : Option RealtimeAgent
  pub model_settings : Option RealtimeSessionModelSettings
  pub playback_state : RealtimePlaybackState

-- `LiveRealtimeSessionState`: the revision is a u64.
pub record Live : Type 0 where
  pub state : RealtimeSessionState
  pub revision : ℕ

abbrev pub new_state : Live
new_state = record {
  state = record {
    connected = false;
    closed = false;
    transcript = "";
    events = [];
    active_agent = none;
    model_settings = none;
    playback_state = record { playing = false; buffered_audio_ms = 0 };
  };
  revision = 0;
}

-- `Value::as_u64`
unfoldable pub as_u64 : Value → Option ℕ
unfolding parse_usize
as_u64 (number text) = parse_usize text
as_u64 _ = none

abbrev pub bytes_of : Value → ℕ
bytes_of payload = elim (get "bytes" payload) [ none ↦ 0 | some v ↦ unwrap_or (as_u64 v) 0 ]

-- What an event does to the playback state.
unfoldable pub playback : RealtimeEvent → RealtimePlaybackState → RealtimePlaybackState
unfolding as_u64 get
playback (RealtimeEvent.raw_model_event event_type payload) p =
    if str_eq event_type "audio"
    then record { playing = true; buffered_audio_ms = bytes_of payload }
    else if str_eq event_type "audio_done"
    then record { playing = false; buffered_audio_ms = 0 }
    else p
playback (RealtimeEvent.interrupted reason) p = record { playing = false; buffered_audio_ms = 0 }
playback (RealtimeEvent.agent_end info) p = record p { playing = false }
playback _ p = p

unfoldable pub transcribe : RealtimeEvent → String → String
transcribe (RealtimeEvent.transcript_delta t) transcript = concat transcript t
transcribe _ transcript = transcript

-- The changes of the shared state: a pushed event, and the blocks of `connect`, `update_agent` and
-- `close` that hold the lock.
pub data Write : Type 0 where
  push : RealtimeEvent → Write
  open_for : Option RealtimeAgent → Write
  set_agent : RealtimeAgent → Option RealtimeSessionModelSettings → Write
  shut : Write

unfoldable pub push_event : RealtimeEvent → Live → Live
unfolding playback transcribe
push_event event live = record {
  state = record live.state {
    transcript = transcribe event live.state.transcript;
    playback_state = playback event live.state.playback_state;
    events = live.state.events ++ event ∷ [];
  };
  revision = (live.revision + 1) % usize_mod;
}

unfoldable pub apply : Write → Live → Live
unfolding push_event
apply (push event) live = push_event event live
apply (open_for agent) live = record live {
  state = record live.state {
    connected = true;
    active_agent = or_option agent live.state.active_agent;
  };
}
apply (set_agent agent settings) live = record live {
  state = record live.state { active_agent = some agent; model_settings = settings };
}
apply shut live = record live { state = record live.state { connected = false; closed = true } }

pub data Call : Type 0 where
  connect disconnect interrupt : Call
  send_text : String → Call
  send_audio : List ℕ → Call
  update_session : RealtimeSessionModelSettings → Call

-- `dyn RealtimeModel`: the answers to a call, after the calls so far, the newest first. `connect`
-- and `disconnect` answer no events.
pub record RealtimeModel : Type 0 where
  pub answer : List Call → Call → Result (List RealtimeModelEvent)

-- What an operation has so far: the shared state and the driver's calls.
pub record World : Type 0 where
  pub live : Live
  pub calls : List Call

abbrev pub Op : Type 0 → Type 0
Op A = World → Result A × World

infixl 5 ◌>>=◌ ◌>>◌
unfoldable pub ◌>>=◌ : {A B : Type 0} → Op A → (A → Op B) → Op B
◌>>=◌ m f w = let (r, w') = m w in elim r [ ok a ↦ f a w' | err e ↦ (err e, w') ]

abbrev pub ◌>>◌ : {A B : Type 0} → Op A → Op B → Op B
m >> k = m >>= λ _. k

unfoldable pub pure : {A : Type 0} → A → Op A
pure a w = (ok a, w)

unfoldable pub read : {A : Type 0} → (RealtimeSessionState → A) → Op A
read f w = (ok (f w.live.state), w)

unfoldable pub write : Write → Op (Unit {0})
unfolding apply
write u w = (ok tt, record w { live = apply u w.live })

unfoldable pub push_events : List RealtimeEvent → Op (Unit {0})
unfolding write ◌>>=◌ pure
push_events [] = pure tt
push_events (e ∷ es) = do write (push e); push_events es

pub data Operation : Type 0 where
  connect : Option RealtimeAgent → Operation
  send_text : String → Operation
  send_audio : List ℕ → Operation
  interrupt : Option String → Operation
  update_agent : RealtimeAgent → Operation
  close : Operation

module _ (model : Option String) (model_driver : Option RealtimeModel) where
  -- A call of the driver, if there is one.
  unfoldable pub call_driver : Call → Op (List RealtimeModelEvent)
  call_driver c w = elim model_driver [
    | none ↦ (ok [], w)
    | some driver ↦ (driver.answer w.calls c, record w { calls = c ∷ w.calls })
  ]

  abbrev pub session_id : String
  session_id = concat "realtime:" (unwrap_or model "default")

  abbrev pub info_of : Option String → RealtimeEventInfo
  info_of agent_name = record { session_id = some session_id; agent_name = agent_name }

  -- The event about an agent, if there is one.
  abbrev pub push_for : Option RealtimeAgent → (RealtimeEventInfo → RealtimeEvent) → Op (Unit {0})
  push_for none event = pure tt
  push_for (some agent) event = write (push (event (info_of (some agent.name))))

  unfoldable pub connect_session : Option RealtimeAgent → Op (Unit {0})
  unfolding call_driver write ◌>>=◌ pure
  connect_session agent = do call_driver connect; write (open_for agent); push_for agent agent_start

  abbrev pub ensure_connected : Bool → Op (Unit {0})
  ensure_connected true = pure tt
  ensure_connected false = connect_session none

  abbrev pub or_event : List RealtimeEvent → RealtimeEvent → List RealtimeEvent
  or_event [] event = event ∷ []
  or_event (e ∷ es) event = e ∷ es

  abbrev pub text_events : List RealtimeModelEvent → String → List RealtimeEvent
  text_events [] text = RealtimeEvent.transcript_delta text ∷ []
  text_events (e ∷ es) text = realtime_events_from_model_events (e ∷ es)

  unfoldable pub send_text_to : String → Op (List RealtimeEvent)
  unfolding connect_session read push_events realtime_events_from_model_events
  send_text_to text = do
    connected ← read (λ s. s.connected)
    ensure_connected connected
    model_events ← call_driver (Call.send_text text)
    let events = text_events model_events text
    push_events events
    pure events

  unfoldable pub send_audio_to : List ℕ → Op (List RealtimeEvent)
  unfolding connect_session read push_events realtime_events_from_model_events decimal_from
  send_audio_to bytes = do
    connected ← read (λ s. s.connected)
    ensure_connected connected
    model_events ← call_driver (Call.send_audio bytes)
    let events = or_event (realtime_events_from_model_events model_events) (
        raw_model_event "audio_input"
          (object (field "bytes" (number (decimal (length bytes))) end)))
    push_events events
    pure events

  unfoldable pub interrupt_session : Option String → Op RealtimeEvent
  unfolding call_driver push_events realtime_events_from_model_events
  interrupt_session reason = do
    model_events ← call_driver Call.interrupt
    push_events (realtime_events_from_model_events model_events ++ interrupted reason ∷ [])
    pure (interrupted reason)

  abbrev pub merged_settings :
      Option RealtimeSessionModelSettings
      → Option RealtimeSessionModelSettings
      → Option RealtimeSessionModelSettings
  merged_settings (some current) (some update) = some (normalize_effective (merge current update))
  merged_settings none (some update) = some (normalize_effective update)
  merged_settings (some current) none = some current
  merged_settings none none = none

  -- The driver is told of the merged settings, and what it answers is pushed.
  abbrev pub tell_driver : Option RealtimeSessionModelSettings → Op (Unit {0})
  tell_driver none = pure tt
  tell_driver (some settings) = do
    model_events ← call_driver (update_session settings)
    push_events (realtime_events_from_model_events model_events)

  abbrev pub name_of : RealtimeAgent → String
  name_of agent = agent.name

  -- The events of a change of the agent: none if the new one has the old one's name.
  abbrev pub push_change : Bool → Option RealtimeAgent → RealtimeAgent → Op (Unit {0})
  push_change true previous updated = pure tt
  push_change false previous updated = do
    push_for previous agent_end
    push_for (some updated) agent_start

  unfoldable pub update_session_agent : RealtimeAgent → Op RealtimeEvent
  unfolding call_driver read write push_events realtime_events_from_model_events normalize_effective
      merge without_clear_markers
  update_session_agent agent = do
    previous_agent ← read (λ s. s.active_agent)
    current_settings ← read (λ s. s.model_settings)
    let settings = merged_settings current_settings agent.model_settings
    let kept = Option.map without_clear_markers settings
    tell_driver settings
    let updated = record agent { model_settings = kept }
    write (set_agent updated kept)
    push_change (str_option_eq (Option.map name_of previous_agent) (some updated.name))
        previous_agent updated
    let event =
        session_updated (info_of (some updated.name))
          (or_option (elim kept [ none ↦ none | some s ↦ s.model_name ]) model)
    write (push event)
    pure event

  unfoldable pub close_session : Op RealtimeEvent
  unfolding call_driver read write ◌>>=◌ pure
  close_session = do
    call_driver disconnect
    active_agent ← read (λ s. s.active_agent)
    write shut
    push_for active_agent agent_end
    write (push (session_closed (info_of none)))
    pure (session_closed (info_of none))

  -- The operations that a client calls, and what they leave behind, whether they return or fail.
  unfoldable pub perform : Operation → World → World
  unfolding connect_session send_text_to send_audio_to interrupt_session update_session_agent
      close_session
  perform (Operation.connect agent) w = (connect_session agent w).1
  perform (Operation.send_text text) w = (send_text_to text w).1
  perform (Operation.send_audio bytes) w = (send_audio_to bytes w).1
  perform (Operation.interrupt reason) w = (interrupt_session reason w).1
  perform (Operation.update_agent agent) w = (update_session_agent agent w).1
  perform Operation.close w = (close_session w).1

  unfoldable pub perform_all : List Operation → World → World
  unfolding perform
  perform_all [] w = w
  perform_all (o ∷ os) w = perform_all os (perform o w)
