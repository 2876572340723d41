-- ===== src/Realtime/Config.antt =====
-- The settings of a realtime session and their merging: crates/agents-realtime/src/config.rs and
-- audio_formats.rs. A float is its 32 bits: the code only moves it.
use openai_agents_rust.Prelude.{
  ℕ, String, Bool, false, ◌||◌, Option, none, some, or_option, is_some, if◌then◌else◌, str_eq,
  ◌>>=◌,
}
use openai_agents_rust.Json.{Fields}

abbrev pub F32 : Type 0
F32 = ℕ

pub data RealtimeAudioFormat : Type 0 where
  pcm16 g711_ulaw g711_alaw : RealtimeAudioFormat
  custom : String → RealtimeAudioFormat

unfoldable pub to_realtime_audio_format : String → RealtimeAudioFormat
to_realtime_audio_format value =
    if str_eq value "pcm16" || (str_eq value "pcm" || str_eq value "audio/pcm")
    then pcm16
    else if str_eq value "g711_ulaw" || (str_eq value "pcmu" || str_eq value "audio/pcmu")
    then g711_ulaw
    else if str_eq value "g711_alaw" || (str_eq value "pcma" || str_eq value "audio/pcma")
    then g711_alaw
    else custom value

-- `match (current, update)` of two options, with the merging of two values
unfoldable pub merge_options {ℓ} : {A : Type ℓ} → (A → A → A) → Option A → Option A → Option A
merge_options merge (some current) (some next) = some (merge current next)
merge_options merge none (some next) = some next
merge_options merge (some current) none = some current
merge_options merge none none = none

-- A field that the update may clear.
abbrev pub unless_cleared {ℓ} : {A : Type ℓ} → Bool → Option A → Option A
unless_cleared clear value = if clear then none else value

pub record RealtimeInputAudioTranscriptionConfig : Type 0 where
  pub language : Option String
  pub model : Option String
  pub prompt : Option String

unfoldable pub merge_transcription :
    RealtimeInputAudioTranscriptionConfig
    → RealtimeInputAudioTranscriptionConfig
    → RealtimeInputAudioTranscriptionConfig
merge_transcription self update = record {
  language = or_option update.language self.language;
  model = or_option update.model self.model;
  prompt = or_option update.prompt self.prompt;
}

pub record RealtimeInputAudioNoiseReductionConfig : Type 0 where
  pub kind : Option String

unfoldable pub merge_noise_reduction :
    RealtimeInputAudioNoiseReductionConfig
    → RealtimeInputAudioNoiseReductionConfig
    → RealtimeInputAudioNoiseReductionConfig
merge_noise_reduction self update = record { kind = or_option update.kind self.kind }

pub record RealtimeTurnDetectionConfig : Type 0 where
  pub kind : Option String
  pub create_response : Option Bool
  pub eagerness : Option String
  pub interrupt_response : Option Bool
  pub prefix_padding_ms : Option ℕ
  pub silence_duration_ms : Option ℕ
  pub threshold : Option F32
  pub idle_timeout_ms : Option ℕ
  pub model_version : Option String

unfoldable pub merge_turn_detection :
    RealtimeTurnDetectionConfig → RealtimeTurnDetectionConfig → RealtimeTurnDetectionConfig
merge_turn_detection self update = record {
  kind = or_option update.kind self.kind;
  create_response = or_option update.create_response self.create_response;
  eagerness = or_option update.eagerness self.eagerness;
  interrupt_response = or_option update.interrupt_response self.interrupt_response;
  prefix_padding_ms = or_option update.prefix_padding_ms self.prefix_padding_ms;
  silence_duration_ms = or_option update.silence_duration_ms self.silence_duration_ms;
  threshold = or_option update.threshold self.threshold;
  idle_timeout_ms = or_option update.idle_timeout_ms self.idle_timeout_ms;
  model_version = or_option update.model_version self.model_version;
}

pub record RealtimeAudioInputConfig : Type 0 where
  pub format : Option RealtimeAudioFormat
  pub noise_reduction : Option RealtimeInputAudioNoiseReductionConfig
  pub transcription : Option RealtimeInputAudioTranscriptionConfig
  pub turn_detection : Option RealtimeTurnDetectionConfig
  pub clear_format : Bool
  pub clear_noise_reduction : Bool
  pub clear_transcription : Bool
  pub clear_turn_detection : Bool

abbrev pub default_input : RealtimeAudioInputConfig
default_input = record {
  format = none;
  noise_reduction = none;
  transcription = none;
  turn_detection = none;
  clear_format = false;
  clear_noise_reduction = false;
  clear_transcription = false;
  clear_turn_detection = false;
}

unfoldable pub merge_input :
    RealtimeAudioInputConfig → RealtimeAudioInputConfig → RealtimeAudioInputConfig
unfolding merge_options merge_transcription merge_noise_reduction merge_turn_detection
merge_input self update = record {
  format = unless_cleared update.clear_format (or_option update.format self.format);
  noise_reduction =
      unless_cleared update.clear_noise_reduction
        (merge_options merge_noise_reduction self.noise_reduction update.noise_reduction);
  transcription =
      unless_cleared update.clear_transcription
        (merge_options merge_transcription self.transcription update.transcription);
  turn_detection =
      unless_cleared update.clear_turn_detection
        (merge_options merge_turn_detection self.turn_detection update.turn_detection);
  clear_format = update.clear_format;
  clear_noise_reduction = update.clear_noise_reduction;
  clear_transcription = update.clear_transcription;
  clear_turn_detection = update.clear_turn_detection;
}

abbrev pub input_has_values : RealtimeAudioInputConfig → Bool
input_has_values i =
    is_some i.format
    || (is_some i.noise_reduction || (is_some i.transcription || is_some i.turn_detection))

unfoldable pub input_has_values_or_clears : RealtimeAudioInputConfig → Bool
input_has_values_or_clears i =
    i.clear_format
    || (i.clear_noise_reduction
        || (i.clear_transcription || (i.clear_turn_detection || input_has_values i)))

unfoldable pub input_without_clear_markers :
    RealtimeAudioInputConfig → Option RealtimeAudioInputConfig
input_without_clear_markers i =
    if input_has_values i
    then some (record i {
      clear_format = false;
      clear_noise_reduction = false;
      clear_transcription = false;
      clear_turn_detection = false;
    })
    else none

pub record RealtimeAudioOutputConfig : Type 0 where
  pub format : Option RealtimeAudioFormat
  pub voice : Option String
  pub speed : Option F32
  pub clear_format : Bool
  pub clear_voice : Bool
  pub clear_speed : Bool

abbrev pub default_output : RealtimeAudioOutputConfig
default_output = record {
  format = none;
  voice = none;
  speed = none;
  clear_format = false;
  clear_voice = false;
  clear_speed = false;
}

unfoldable pub merge_output :
    RealtimeAudioOutputConfig → RealtimeAudioOutputConfig → RealtimeAudioOutputConfig
merge_output self update = record {
  format = unless_cleared update.clear_format (or_option update.format self.format);
  voice = unless_cleared update.clear_voice (or_option update.voice self.voice);
  speed = unless_cleared update.clear_speed (or_option update.speed self.speed);
  clear_format = update.clear_format;
  clear_voice = update.clear_voice;
  clear_speed = update.clear_speed;
}

abbrev pub output_has_values : RealtimeAudioOutputConfig → Bool
output_has_values o = is_some o.format || (is_some o.voice || is_some o.speed)

unfoldable pub output_has_values_or_clears : RealtimeAudioOutputConfig → Bool
output_has_values_or_clears o =
    o.clear_format || (o.clear_voice || (o.clear_speed || output_has_values o))

unfoldable pub output_without_clear_markers :
    RealtimeAudioOutputConfig → Option RealtimeAudioOutputConfig
output_without_clear_markers o =
    if output_has_values o
    then some (record o { clear_format = false; clear_voice = false; clear_speed = false })
    else none

pub record RealtimeAudioConfig : Type 0 where
  pub input : Option RealtimeAudioInputConfig
  pub output : Option RealtimeAudioOutputConfig

abbrev pub default_audio : RealtimeAudioConfig
default_audio = record { input = none; output = none }

unfoldable pub merge_audio : RealtimeAudioConfig → RealtimeAudioConfig → RealtimeAudioConfig
unfolding merge_options merge_input merge_output
merge_audio self update = record {
  input = merge_options merge_input self.input update.input;
  output = merge_options merge_output self.output update.output;
}

unfoldable pub audio_without_clear_markers : RealtimeAudioConfig → Option RealtimeAudioConfig
unfolding input_without_clear_markers output_without_clear_markers
audio_without_clear_markers a =
    let input = a.input >>= input_without_clear_markers in
    let output = a.output >>= output_without_clear_markers in
    if is_some input || is_some output
    then some (record { input = input; output = output })
    else none

pub record RealtimeModelTracingConfig : Type 0 where
  pub workflow_name : Option String
  pub group_id : Option String
  pub metadata : Option Fields

unfoldable pub merge_tracing :
    RealtimeModelTracingConfig → RealtimeModelTracingConfig → RealtimeModelTracingConfig
merge_tracing self update = record {
  workflow_name = or_option update.workflow_name self.workflow_name;
  group_id = or_option update.group_id self.group_id;
  metadata = or_option update.metadata self.metadata;
}
