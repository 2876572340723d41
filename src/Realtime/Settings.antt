-- ===== src/Realtime/Settings.antt =====
-- `RealtimeSessionModelSettings` of crates/agents-realtime/src/config.rs: merging an update, and
-- settling the fields that stand both at the top and in the audio settings.
use openai_agents_rust.Prelude.{
  String, Bool, true, false, ◌||◌, Option, none, some, List, or_option, unwrap_or, is_some,
  if◌then◌else◌, ◌>>=◌,
}
use openai_agents_rust.Realtime.Config.{
  F32, RealtimeAudioFormat, RealtimeInputAudioTranscriptionConfig,
  RealtimeInputAudioNoiseReductionConfig, RealtimeTurnDetectionConfig, RealtimeAudioInputConfig,
  RealtimeAudioOutputConfig, RealtimeAudioConfig, RealtimeModelTracingConfig, merge_options,
  unless_cleared, merge_transcription, merge_noise_reduction, merge_turn_detection, merge_audio,
  merge_tracing, default_input, default_output, default_audio, input_has_values_or_clears,
  output_has_values_or_clears, audio_without_clear_markers,
}

pub record RealtimeSessionModelSettings : Type 0 where
  pub model_name : Option String
  pub instructions : Option String
  pub modalities : Option (List String)
  pub output_modalities : Option (List String)
  pub audio : Option RealtimeAudioConfig
  pub voice : Option String
  pub speed : Option F32
  pub input_audio_format : Option RealtimeAudioFormat
  pub output_audio_format : Option RealtimeAudioFormat
  pub input_audio_transcription : Option RealtimeInputAudioTranscriptionConfig
  pub input_audio_noise_reduction : Option RealtimeInputAudioNoiseReductionConfig
  pub turn_detection : Option RealtimeTurnDetectionConfig
  pub tool_choice : Option String
  pub tracing : Option RealtimeModelTracingConfig
  pub clear_voice : Bool
  pub clear_speed : Bool
  pub clear_input_audio_format : Bool
  pub clear_output_audio_format : Bool
  pub clear_input_audio_transcription : Bool
  pub clear_input_audio_noise_reduction : Bool
  pub clear_turn_detection : Bool

-- The fields of the update, one by one.
unfoldable pub merge_fields :
    RealtimeSessionModelSettings → RealtimeSessionModelSettings → RealtimeSessionModelSettings
unfolding merge_options merge_audio merge_transcription merge_noise_reduction merge_turn_detection
    merge_tracing
merge_fields self update = record {
  model_name = or_option update.model_name self.model_name;
  instructions = or_option update.instructions self.instructions;
  modalities = or_option update.modalities self.modalities;
  output_modalities = or_option update.output_modalities self.output_modalities;
  audio = merge_options merge_audio self.audio update.audio;
  voice = unless_cleared update.clear_voice (or_option update.voice self.voice);
  speed = unless_cleared update.clear_speed (or_option update.speed self.speed);
  input_audio_format =
      unless_cleared update.clear_input_audio_format
        (or_option update.input_audio_format self.input_audio_format);
  output_audio_format =
      unless_cleared update.clear_output_audio_format
        (or_option update.output_audio_format self.output_audio_format);
  input_audio_transcription = unless_cleared update.clear_input_audio_transcription (
      merge_options merge_transcription self.input_audio_transcription
        update.input_audio_transcription);
  input_audio_noise_reduction = unless_cleared update.clear_input_audio_noise_reduction (
      merge_options merge_noise_reduction self.input_audio_noise_reduction
        update.input_audio_noise_reduction);
  turn_detection =
      unless_cleared update.clear_turn_detection
        (merge_options merge_turn_detection self.turn_detection update.turn_detection);
  tool_choice = or_option update.tool_choice self.tool_choice;
  tracing = merge_options merge_tracing self.tracing update.tracing;
  clear_voice = update.clear_voice;
  clear_speed = update.clear_speed;
  clear_input_audio_format = update.clear_input_audio_format;
  clear_output_audio_format = update.clear_output_audio_format;
  clear_input_audio_transcription = update.clear_input_audio_transcription;
  clear_input_audio_noise_reduction = update.clear_input_audio_noise_reduction;
  clear_turn_detection = update.clear_turn_detection;
}

-- An output field after the update: cleared, replaced or left as it is. The flag says that it was
-- cleared.
abbrev pub put_value {ℓ} : {A : Type ℓ} → Bool → Option A → Option A → Option A
put_value true new old = none
put_value false new old = or_option new old

abbrev pub put_flag {ℓ} : {A : Type ℓ} → Bool → Option A → Bool → Bool
put_flag true new old = true
put_flag false (some new) old = false
put_flag false none old = old

unfoldable pub put_output :
    RealtimeSessionModelSettings → RealtimeAudioOutputConfig → RealtimeAudioOutputConfig
put_output update output = record {
  format = put_value update.clear_output_audio_format update.output_audio_format output.format;
  voice = put_value update.clear_voice update.voice output.voice;
  speed = put_value update.clear_speed update.speed output.speed;
  clear_format =
      put_flag update.clear_output_audio_format update.output_audio_format output.clear_format;
  clear_voice = put_flag update.clear_voice update.voice output.clear_voice;
  clear_speed = put_flag update.clear_speed update.speed output.clear_speed;
}

abbrev pub touches_output : RealtimeSessionModelSettings → Bool
touches_output update =
    update.clear_output_audio_format
    || (is_some update.output_audio_format
        || (update.clear_voice
            || (is_some update.voice || (update.clear_speed || is_some update.speed))))

unfoldable pub merge :
    RealtimeSessionModelSettings → RealtimeSessionModelSettings → RealtimeSessionModelSettings
unfolding merge_fields put_output
merge self update =
    let merged = merge_fields self update in
    let audio = unwrap_or merged.audio default_audio in
    if touches_output update
    then record merged {
      audio = some (record audio {
        output = some (put_output update (unwrap_or audio.output default_output));
      });
    }
    else merged

-- One field that stands at two places: both are cleared, or both take the inner value, or else the
-- outer one.
abbrev pub effective {ℓ} : {A : Type ℓ} → Bool → Option A → Option A → Option A
effective clear inner outer = if clear then none else or_option inner outer

unfoldable pub normalize_input :
    RealtimeSessionModelSettings → RealtimeAudioInputConfig → RealtimeAudioInputConfig
normalize_input s i = record {
  format = effective (s.clear_input_audio_format || i.clear_format) i.format s.input_audio_format;
  noise_reduction =
      effective (s.clear_input_audio_noise_reduction || i.clear_noise_reduction) i.noise_reduction
        s.input_audio_noise_reduction;
  transcription =
      effective (s.clear_input_audio_transcription || i.clear_transcription) i.transcription
        s.input_audio_transcription;
  turn_detection =
      effective (s.clear_turn_detection || i.clear_turn_detection) i.turn_detection
        s.turn_detection;
  clear_format = s.clear_input_audio_format || i.clear_format;
  clear_noise_reduction = s.clear_input_audio_noise_reduction || i.clear_noise_reduction;
  clear_transcription = s.clear_input_audio_transcription || i.clear_transcription;
  clear_turn_detection = s.clear_turn_detection || i.clear_turn_detection;
}

unfoldable pub normalize_output :
    RealtimeSessionModelSettings → RealtimeAudioOutputConfig → RealtimeAudioOutputConfig
normalize_output s o = record {
  format = effective (s.clear_output_audio_format || o.clear_format) o.format s.output_audio_format;
  voice = effective (s.clear_voice || o.clear_voice) o.voice s.voice;
  speed = effective (s.clear_speed || o.clear_speed) o.speed s.speed;
  clear_format = s.clear_output_audio_format || o.clear_format;
  clear_voice = s.clear_voice || o.clear_voice;
  clear_speed = s.clear_speed || o.clear_speed;
}

abbrev pub then_some {ℓ} : {A : Type ℓ} → Bool → A → Option A
then_some b a = if b then some a else none

-- The settings with the normalized input and output.
unfoldable pub settle_audio :
    RealtimeSessionModelSettings
    → RealtimeAudioInputConfig
    → RealtimeAudioOutputConfig
    → RealtimeSessionModelSettings
settle_audio s i o =
    let input = then_some (input_has_values_or_clears i) i in
    let output = then_some (output_has_values_or_clears o) o in
    record s {
      audio =
          then_some (is_some input || is_some output) (record { input = input; output = output });
      voice = o.voice;
      speed = o.speed;
      input_audio_format = i.format;
      output_audio_format = o.format;
      input_audio_transcription = i.transcription;
      input_audio_noise_reduction = i.noise_reduction;
      turn_detection = i.turn_detection;
      clear_voice = o.clear_voice;
      clear_speed = o.clear_speed;
      clear_input_audio_format = i.clear_format;
      clear_output_audio_format = o.clear_format;
      clear_input_audio_transcription = i.clear_transcription;
      clear_input_audio_noise_reduction = i.clear_noise_reduction;
      clear_turn_detection = i.clear_turn_detection;
    }

abbrev pub inner_input : RealtimeSessionModelSettings → RealtimeAudioInputConfig
inner_input s = unwrap_or (unwrap_or s.audio default_audio).input default_input

abbrev pub inner_output : RealtimeSessionModelSettings → RealtimeAudioOutputConfig
inner_output s = unwrap_or (unwrap_or s.audio default_audio).output default_output

unfoldable pub normalize_effective : RealtimeSessionModelSettings → RealtimeSessionModelSettings
unfolding normalize_input normalize_output settle_audio input_has_values_or_clears
    output_has_values_or_clears
normalize_effective s =
    settle_audio s (normalize_input s (inner_input s)) (normalize_output s (inner_output s))

unfoldable pub without_clear_markers : RealtimeSessionModelSettings → RealtimeSessionModelSettings
unfolding audio_without_clear_markers
without_clear_markers s = record s {
  clear_voice = false;
  clear_speed = false;
  clear_input_audio_format = false;
  clear_output_audio_format = false;
  clear_input_audio_transcription = false;
  clear_input_audio_noise_reduction = false;
  clear_turn_detection = false;
  audio = s.audio >>= audio_without_clear_markers;
}
