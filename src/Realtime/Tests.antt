-- ===== src/Realtime/Tests.antt =====
-- Runs of the code of crates/agents-realtime/src, and instances of its laws.
use openai_agents_rust.Prelude.{true, false, none, some, List, [], ◌∷◌, ◌≡◌, refl}
use openai_agents_rust.Errors.{Result, ok, err, message}
use openai_agents_rust.Realtime.Config.{pcm16, g711_ulaw, to_realtime_audio_format, custom}
use openai_agents_rust.Realtime.Settings.{
  RealtimeSessionModelSettings, merge, normalize_effective, without_clear_markers,
}
use openai_agents_rust.Realtime.Updates.{stale_input_format, persisted}
use openai_agents_rust.Realtime.Events.{RealtimeEvent, RealtimeModelEvent, transcript_delta}
use openai_agents_rust.Realtime.Session.{
  RealtimeModel, Operation, Call, new_state, push, shut, apply, push_event, perform_all,
}
use openai_agents_rust.Realtime.Replayed.{IsReplayed, fresh, perform_all-IsReplayed}
use openai_agents_rust.Realtime.Stream.{
  look, ended, System, Reach, here, next, reads, writes, open_stream, look_up, event_at, Reads,
}
use openai_agents_rust.Realtime.Delivery.{IsCut, Reach-IsCut, Alone, stream_finishes, lost_wakeup}

abbrev no_settings : RealtimeSessionModelSettings
no_settings = record {
  model_name = none;
  instructions = none;
  modalities = none;
  output_modalities = none;
  audio = none;
  voice = none;
  speed = none;
  input_audio_format = none;
  output_audio_format = none;
  input_audio_transcription = none;
  input_audio_noise_reduction = none;
  turn_detection = none;
  tool_choice = none;
  tracing = none;
  clear_voice = false;
  clear_speed = false;
  clear_input_audio_format = false;
  clear_output_audio_format = false;
  clear_input_audio_transcription = false;
  clear_input_audio_noise_reduction = false;
  clear_turn_detection = false;
}

abbrev with_pcm : RealtimeSessionModelSettings
with_pcm = record no_settings { input_audio_format = some pcm16; voice = some "alloy" }

abbrev with_ulaw : RealtimeSessionModelSettings
with_ulaw = record no_settings { input_audio_format = some g711_ulaw; voice = some "echo" }

formats_by_name :
    (to_realtime_audio_format "audio/pcmu" ≡ g711_ulaw)
    × (to_realtime_audio_format "opus" ≡ custom "opus")
unfolding to_realtime_audio_format
formats_by_name = (refl, refl)

stale_input_format_example :
    (normalize_effective (merge (persisted with_pcm) with_ulaw)).input_audio_format ≡ some pcm16
unfolding normalize_effective without_clear_markers
stale_input_format_example = stale_input_format with_pcm with_ulaw pcm16 refl refl refl

-- A driver that answers a text with audio and a transcript, and refuses to be disconnected.
abbrev talkative : RealtimeModel
talkative = record { answer = answer_to }
  where
    answer_to : List Call → Call → Result (List RealtimeModelEvent)
    answer_to calls (Call.send_text t) =
        ok (RealtimeModelEvent.audio (1 ∷ 2 ∷ []) ∷ RealtimeModelEvent.transcript_delta t ∷ [])
    answer_to calls Call.disconnect = err (message "busy")
    answer_to calls c = ok []

abbrev talk : List Operation
talk = Operation.send_text "a" ∷ Operation.send_text "b" ∷ Operation.close ∷ []

talk_result :
    ((perform_all none (some talkative) talk fresh).live.state.transcript ≡ "ab")
    × ((perform_all none (some talkative) talk fresh).live.state.playback_state
        ≡ record { playing = true; buffered_audio_ms = 2 })
    × ((perform_all none (some talkative) talk fresh).live.state.closed ≡ false)
unfolding perform_all
talk_result = (refl, refl, refl)

perform_all-IsReplayed_example : IsReplayed (perform_all none (some talkative) talk fresh).live
perform_all-IsReplayed_example = perform_all-IsReplayed none (some talkative) talk

abbrev hello : RealtimeEvent
hello = transcript_delta "hello"

-- A stream of a new session has read one event when the session is closed.
abbrev spoken_to : System
spoken_to = record {
  live = apply shut (push_event hello new_state);
  reader = record { position = look; index = 1; delivered = hello ∷ [] };
}

spoken_to_reached : Reach (open_stream new_state) spoken_to
unfolding apply event_at
spoken_to_reached = next (next (next here (writes (push hello))) (reads refl look_up)) (writes shut)

Reach-IsCut_example : IsCut spoken_to
Reach-IsCut_example = Reach-IsCut spoken_to_reached

stream_finishes_example :
    (t : System) × Alone spoken_to t
    × (t.reader.position ≡ ended)
    × (t.reader.delivered ≡ spoken_to.live.state.events)
unfolding apply
stream_finishes_example = stream_finishes spoken_to_reached refl refl

lost_wakeup_example :
    (t : System) × Reach (open_stream new_state) t
    × (t.live ≡ push_event hello (open_stream new_state).live)
    × (t.reader.delivered ≡ (open_stream new_state).reader.delivered)
    × ((u : System) → ¬ Reads t t.reader.position u)
unfolding event_at
lost_wakeup_example = lost_wakeup (open_stream new_state) hello refl refl refl
