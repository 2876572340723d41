-- ===== src/Realtime/Replayed.antt =====
-- The state of a session of crates/agents-realtime/src/session.rs is what its log of events tells.
use openai_agents_rust.Prelude.{
  ◌%◌, String, Bool, true, false, Option, none, some, List, [], ◌∷◌, ◌++◌, length, str_eq,
  or_option, unwrap_or, ◌≡◌, refl, ap, sym, subst, ◌∙◌, arith, length-append, if◌then◌else◌,
  or_option_assoc,
}
use text.Mathlib.TextLemmas as Text
use openai_agents_rust.ToolIdentity.{concat}
use openai_agents_rust.RunState.{usize_mod}
use openai_agents_rust.Realtime.Events.{RealtimeEvent}
use openai_agents_rust.Realtime.Session.{
  RealtimeModel, Live, Write, push, open_for, set_agent, shut, apply, push_event, playback,
  transcribe, new_state, World, Operation, perform, perform_all,
}
use openai_agents_rust.Realtime.Writes.{run_writes, perform-ByWrites}

-- What the events say: the text of all the deltas, in order.
abbrev pub text_of : RealtimeEvent → String
text_of (RealtimeEvent.transcript_delta t) = t
text_of _ = ""

abbrev pub spoken : List RealtimeEvent → String
spoken [] = ""
spoken (e ∷ es) = concat (text_of e) (spoken es)

-- Whether the audio plays after an event, if the event decides it; the last such event counts.
abbrev pub starts_or_stops : RealtimeEvent → Option Bool
starts_or_stops (RealtimeEvent.raw_model_event event_type payload) =
    if str_eq event_type "audio"
    then some true
    else if str_eq event_type "audio_done"
    then some false
    else none
starts_or_stops (RealtimeEvent.interrupted reason) = some false
starts_or_stops (RealtimeEvent.agent_end info) = some false
starts_or_stops _ = none

abbrev pub last_decision : List RealtimeEvent → Option Bool
last_decision [] = none
last_decision (e ∷ es) = or_option (last_decision es) (starts_or_stops e)

-- The state tells what the log of events tells.
pub record IsReplayed (live : Live) : Type 0 where
  pub transcript_spoken : live.state.transcript ≡ spoken live.state.events
  pub playing_decided :
      live.state.playback_state.playing ≡ unwrap_or (last_decision live.state.events) false
  pub revision_counts : live.revision ≡ length live.state.events % usize_mod

spoken-append :
    (es : List RealtimeEvent) (e : RealtimeEvent)
    → spoken (es ++ e ∷ []) ≡ concat (spoken es) (text_of e)
spoken-append [] e = Text.append-nil (text_of e) ∙ sym (Text.nil-append (text_of e))
spoken-append (x ∷ es) e =
    ap (concat (text_of x)) (spoken-append es e)
    ∙ sym (Text.append_assoc (text_of x) (spoken es) (text_of e))

last_decision-append :
    (es : List RealtimeEvent) (e : RealtimeEvent)
    → last_decision (es ++ e ∷ []) ≡ or_option (starts_or_stops e) (last_decision es)
last_decision-append [] e = ground arith
last_decision-append (x ∷ es) e =
    ap (λ o. or_option o (starts_or_stops x)) (last_decision-append es e)
    ∙ or_option_assoc (starts_or_stops e) (last_decision es) (starts_or_stops x)

transcribe_lem : (e : RealtimeEvent) (t : String) → transcribe e t ≡ concat t (text_of e)
unfolding transcribe
transcribe_lem (RealtimeEvent.transcript_delta x) t = refl
transcribe_lem _ t = sym (Text.append-nil t)

playback_lem :
    (e : RealtimeEvent) (p : _) → (playback e p).playing ≡ unwrap_or (starts_or_stops e) p.playing
unfolding playback
playback_lem (RealtimeEvent.transcript_delta x) p = refl
playback_lem _ p = ground arith

unwrap_or_option :
    (a b : Option Bool) (c : Bool) → unwrap_or (or_option a b) c ≡ unwrap_or a (unwrap_or b c)
unwrap_or_option none b c = refl
unwrap_or_option (some a) b c = refl

push_event-IsReplayed :
    (e : RealtimeEvent) (live : Live) → IsReplayed live → IsReplayed (push_event e live)
unfolding push_event
push_event-IsReplayed e live h =
    let es = live.state.events in
    record {
      transcript_spoken =
          transcribe_lem e live.state.transcript
          ∙ ap (λ t. concat t (text_of e)) h.transcript_spoken
          ∙ sym (spoken-append es e);
      playing_decided =
          playback_lem e live.state.playback_state
          ∙ ap (unwrap_or (starts_or_stops e)) h.playing_decided
          ∙ sym (unwrap_or_option (starts_or_stops e) (last_decision es) false)
          ∙ ap (λ o. unwrap_or o false) (sym (last_decision-append es e));
      revision_counts = ground (arith, h.revision_counts, length-append es (e ∷ []));
    }

apply-IsReplayed : (w : Write) (live : Live) → IsReplayed live → IsReplayed (apply w live)
unfolding apply
apply-IsReplayed (push e) live h = push_event-IsReplayed e live h
apply-IsReplayed (open_for agent) live h = ground arith
apply-IsReplayed (set_agent agent settings) live h = ground arith
apply-IsReplayed shut live h = ground arith

run_writes-IsReplayed :
    (ws : List Write) (live : Live) → IsReplayed live → IsReplayed (run_writes ws live)
run_writes-IsReplayed [] live h = h
run_writes-IsReplayed (w ∷ ws) live h =
    run_writes-IsReplayed ws (apply w live) (apply-IsReplayed w live h)

abbrev pub fresh : World
fresh = record { live = new_state; calls = [] }

module _ (model : Option String) (d : Option RealtimeModel) where
  perform-IsReplayed :
      (o : Operation) (w : World) → IsReplayed w.live → IsReplayed (perform model d o w).live
  perform-IsReplayed o w h =
      let (ws, e) = perform-ByWrites model d o w in
      subst IsReplayed (sym e) (run_writes-IsReplayed ws w.live h)

  perform_all-IsReplayed_from :
      (os : List Operation) (w : World)
      → IsReplayed w.live
      → IsReplayed (perform_all model d os w).live
  unfolding perform_all
  perform_all-IsReplayed_from [] w h = h
  perform_all-IsReplayed_from (o ∷ os) w h =
      perform_all-IsReplayed_from os (perform model d o w) (perform-IsReplayed o w h)

  -- After any operations on a new session, whatever its driver answers and whichever of them fail,
  -- the transcript is the text of all transcript deltas in the log, in order, the audio plays exactly
  -- if the last event that starts or stops it starts it, and the revision is the number of events,
  -- up to the wrap of a u64.
  pub perform_all-IsReplayed :
      (os : List Operation) → IsReplayed (perform_all model d os fresh).live
  perform_all-IsReplayed os =
      perform_all-IsReplayed_from os fresh
        (record { transcript_spoken = refl; playing_decided = refl; revision_counts = refl })
