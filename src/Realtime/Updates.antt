-- ===== src/Realtime/Updates.antt =====
-- What an update of the settings of crates/agents-realtime/src/config.rs changes.
use openai_agents_rust.Prelude.{
  Bool, true, false, ◌||◌, Option, none, some, is_some, ◌≡◌, refl, ap, ◌∙◌, arith,
}
use openai_agents_rust.Realtime.Config.{
  RealtimeAudioFormat, RealtimeAudioInputConfig, RealtimeAudioOutputConfig, default_input,
  default_output, input_has_values_or_clears, unless_cleared, output_has_values_or_clears,
}
use openai_agents_rust.Realtime.Settings.{
  RealtimeSessionModelSettings, merge, normalize_input, normalize_output, settle_audio,
  normalize_effective, without_clear_markers, inner_input, inner_output, effective,
}

input_of_nothing :
    (i : RealtimeAudioInputConfig) → input_has_values_or_clears i ≡ false → i ≡ default_input
unfolding input_has_values_or_clears
input_of_nothing i h = ground (arith, h)

output_of_nothing :
    (o : RealtimeAudioOutputConfig) → output_has_values_or_clears o ≡ false → o ≡ default_output
unfolding output_has_values_or_clears
output_of_nothing o h = ground (arith, h)

-- Settled settings hold the input and the output that they were settled with.
module _ (s : RealtimeSessionModelSettings) (i : RealtimeAudioInputConfig)
    (o : RealtimeAudioOutputConfig) where
  settle_parts : (inner_input (settle_audio s i o) ≡ i) × (inner_output (settle_audio s i o) ≡ o)
  unfolding settle_audio
  settle_parts = ground (arith, input_of_nothing i, output_of_nothing o)

module _ {ℓ} {A : Type ℓ} where
  effective_idem :
      (c d : Bool) (a b : Option A)
      → effective ((c || d) || (c || d)) (effective (c || d) a b) (effective (c || d) a b)
        ≡ effective (c || d) a b
  effective_idem true d a b = refl
  effective_idem false true a b = refl
  effective_idem false false none none = refl
  effective_idem false false none (some b) = refl
  effective_idem false false (some a) b = refl

or_idem : (b : Bool) → (b || b) ≡ b
or_idem true = refl
or_idem false = refl

module _ (s : RealtimeSessionModelSettings) (i : RealtimeAudioInputConfig)
    (o : RealtimeAudioOutputConfig) where
  resettle_input :
      normalize_input (settle_audio s (normalize_input s i) o) (normalize_input s i)
      ≡ normalize_input s i
  unfolding settle_audio normalize_input
  resettle_input = cc (
    effective_idem s.clear_input_audio_format i.clear_format i.format s.input_audio_format,
    effective_idem s.clear_input_audio_noise_reduction i.clear_noise_reduction i.noise_reduction
        s.input_audio_noise_reduction,
    effective_idem s.clear_input_audio_transcription i.clear_transcription i.transcription
        s.input_audio_transcription,
    effective_idem s.clear_turn_detection i.clear_turn_detection i.turn_detection s.turn_detection,
    or_idem (s.clear_input_audio_format || i.clear_format),
    or_idem (s.clear_input_audio_noise_reduction || i.clear_noise_reduction),
    or_idem (s.clear_input_audio_transcription || i.clear_transcription),
    or_idem (s.clear_turn_detection || i.clear_turn_detection),
  )

  resettle_output :
      normalize_output (settle_audio s i (normalize_output s o)) (normalize_output s o)
      ≡ normalize_output s o
  unfolding settle_audio normalize_output
  resettle_output = cc (
    effective_idem s.clear_output_audio_format o.clear_format o.format s.output_audio_format,
    effective_idem s.clear_voice o.clear_voice o.voice s.voice,
    effective_idem s.clear_speed o.clear_speed o.speed s.speed,
    or_idem (s.clear_output_audio_format || o.clear_format),
    or_idem (s.clear_voice || o.clear_voice),
    or_idem (s.clear_speed || o.clear_speed),
  )

  settle_twice : settle_audio (settle_audio s i o) i o ≡ settle_audio s i o
  unfolding settle_audio
  settle_twice = refl

normalize_settled :
    (t : RealtimeSessionModelSettings) (i : RealtimeAudioInputConfig)
    (o : RealtimeAudioOutputConfig)
    → inner_input t ≡ i
    → inner_output t ≡ o
    → normalize_input t i ≡ i
    → normalize_output t o ≡ o
    → normalize_effective t ≡ settle_audio t i o
unfolding normalize_effective
normalize_settled t i o hi ho fi fo =
    ap (λ x. settle_audio t (normalize_input t x) (normalize_output t (inner_output t))) hi
    ∙ ap (λ x. settle_audio t x (normalize_output t (inner_output t))) fi
    ∙ ap (λ x. settle_audio t i (normalize_output t x)) ho
    ∙ ap (λ x. settle_audio t i x) fo

-- Normalizing settings twice is normalizing them once.
pub normalize_idem :
    (s : RealtimeSessionModelSettings)
    → normalize_effective (normalize_effective s) ≡ normalize_effective s
unfolding normalize_effective
normalize_idem s =
    let i = normalize_input s (inner_input s) in
    let o = normalize_output s (inner_output s) in
    normalize_settled (settle_audio s i o) i o (settle_parts s i o).0 (settle_parts s i o).1
      (resettle_input s (inner_input s) o) (resettle_output s i (inner_output s))
    ∙ settle_twice s i o

-- The update says something of a field.
abbrev pub says {ℓ} : {A : Type ℓ} → Bool → Option A → Bool
says clear value = clear || is_some value

module _ (s u : RealtimeSessionModelSettings) where
  -- An update that clears or sets the voice at its top level decides the voice of the session,
  -- whatever the session and the update have in their audio settings.
  update_voice :
      says u.clear_voice u.voice ≡ true
      → (normalize_effective (merge s u)).voice ≡ unless_cleared u.clear_voice u.voice
  unfolding normalize_effective merge
  update_voice h = ground (arith, h)

  update_speed :
      says u.clear_speed u.speed ≡ true
      → (normalize_effective (merge s u)).speed ≡ unless_cleared u.clear_speed u.speed
  unfolding normalize_effective merge
  update_speed h = ground (arith, h)

  update_output_audio_format :
      says u.clear_output_audio_format u.output_audio_format ≡ true
      → (normalize_effective (merge s u)).output_audio_format
        ≡ unless_cleared u.clear_output_audio_format u.output_audio_format
  unfolding normalize_effective merge
  update_output_audio_format h = ground (arith, h)

  merge-input : u.audio ≡ none → inner_input (merge s u) ≡ inner_input s
  unfolding merge
  merge-input h = ground (arith, h)

  merge-input_audio_format :
      u.clear_input_audio_format ≡ false → (merge s u).clear_input_audio_format ≡ false
  unfolding merge
  merge-input_audio_format h = ground (arith, h)

persisted_input :
    (t : RealtimeSessionModelSettings)
    → ((inner_input (without_clear_markers t)).format ≡ (inner_input t).format)
      × ((inner_input (without_clear_markers t)).clear_format ≡ false)
unfolding without_clear_markers
persisted_input t = ground arith

normalize-input_audio_format :
    (t : RealtimeSessionModelSettings) (f : RealtimeAudioFormat)
    → t.clear_input_audio_format ≡ false
    → (inner_input t).clear_format ≡ false
    → (inner_input t).format ≡ some f
    → (normalize_effective t).input_audio_format ≡ some f
unfolding normalize_effective
normalize-input_audio_format t f c d h = rw (c, d, h)

-- What `update_agent` keeps of the settings of a session.
abbrev pub persisted : RealtimeSessionModelSettings → RealtimeSessionModelSettings
persisted s = without_clear_markers (normalize_effective s)

normalized_input_format :
    (s : RealtimeSessionModelSettings)
    → (inner_input (normalize_effective s)).format ≡ (persisted s).input_audio_format
unfolding normalize_effective without_clear_markers
normalized_input_format s =
    ap (λ x. x.format)
      (settle_parts s (normalize_input s (inner_input s)) (normalize_output s (inner_output s))).0

-- Once a session has a format for its audio input, an update that sets another one at its top level
-- is ignored, if it has no audio settings and clears nothing.
pub stale_input_format :
    (s u : RealtimeSessionModelSettings) (old : RealtimeAudioFormat)
    → (persisted s).input_audio_format ≡ some old
    → u.audio ≡ none
    → u.clear_input_audio_format ≡ false
    → (normalize_effective (merge (persisted s) u)).input_audio_format ≡ some old
stale_input_format s u old h a c =
    let i = persisted_input (normalize_effective s) in
    let m = merge-input (persisted s) u a in
    normalize-input_audio_format (merge (persisted s) u) old
      (merge-input_audio_format (persisted s) u c) (ap (λ x. x.clear_format) m ∙ i.1)
      (ap (λ x. x.format) m ∙ i.0 ∙ normalized_input_format s ∙ h)
