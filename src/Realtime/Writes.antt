-- ===== src/Realtime/Writes.antt =====
-- The operations of a session of crates/agents-realtime/src/session.rs change its shared state by
-- writes alone, and what every write keeps.
use openai_agents_rust.Prelude.{
  ℕ, String, Bool, true, false, Option, none, some, List, [], ◌∷◌, ◌++◌, ◌≡◌, refl, ap, sym, ◌∙◌,
}
use openai_agents_rust.Errors.{Result, ok, err}
use openai_agents_rust.Realtime.Settings.{RealtimeSessionModelSettings}
use openai_agents_rust.Realtime.Events.{RealtimeEventInfo, RealtimeEvent}
use openai_agents_rust.Realtime.Session.{
  RealtimeAgent, RealtimeModel, RealtimeSessionState, Live, Write, push, apply, Op, ◌>>=◌, pure,
  read, write, call_driver, push_events, connect_session, send_text_to, send_audio_to,
  interrupt_session, update_session_agent, close_session, Call, World, Operation, perform, push_for,
  info_of, ensure_connected, tell_driver, push_change,
}

-- A run of writes, one after another.
abbrev pub run_writes : List Write → Live → Live
run_writes [] live = live
run_writes (w ∷ ws) live = run_writes ws (apply w live)

run_writes-append :
    (us ws : List Write) (live : Live)
    → run_writes (us ++ ws) live ≡ run_writes ws (run_writes us live)
run_writes-append [] ws live = refl
run_writes-append (u ∷ us) ws live = run_writes-append us ws (apply u live)

-- Whatever the driver answers, an operation changes the shared state by writes.
pub record ByWrites {A : Type 0} (m : Op A) : Type 0 where
  pub at : (w : World) → (ws : List Write) × ((m w).1.live ≡ run_writes ws w.live)

module _ {A : Type 0} where
  ByWrites-pure : (a : A) → ByWrites (pure a)
  unfolding pure
  ByWrites-pure a = record { at = λ w. ([], refl) }

ByWrites-write : (u : Write) → ByWrites (write u)
unfolding write
ByWrites-write u = record { at = λ w. (u ∷ [], refl) }

module _ {A B : Type 0} where
  ByWrites-bind :
      (m : Op A) (f : A → Op B) → ByWrites m → ((a : A) → ByWrites (f a)) → ByWrites (m >>= f)
  unfolding ◌>>=◌
  ByWrites-bind m f h k = record { at = λ w. go w (m w).0 (m w).1 (h.at w) }
    where
      go :
          (w : World) (r : Result A) (w' : World)
          → (ws : List Write) × (w'.live ≡ run_writes ws w.live)
          → (ws : List Write) × ((◌>>=◌ (λ (_ : World). (r, w')) f w').1.live
              ≡ run_writes ws w.live)
      go w (err e) w' (ws, h') = (ws, h')
      go w (ok a) w' (ws, h') =
          let (us, g) = (k a).at w' in
          (ws ++ us, g ∙ ap (run_writes us) h' ∙ sym (run_writes-append ws us w.live))

module _ {A : Type 0} where
  ByWrites-read : (f : RealtimeSessionState → A) → ByWrites (read f)
  unfolding read
  ByWrites-read f = record { at = λ w. ([], refl) }

ByWrites-call_driver :
    (model : Option String) (d : Option RealtimeModel) (c : Call) → ByWrites (call_driver model d c)
unfolding call_driver
ByWrites-call_driver model none c = record { at = λ w. ([], refl) }
ByWrites-call_driver model (some driver) c = record { at = λ w. ([], refl) }

ByWrites-push_events : (es : List RealtimeEvent) → ByWrites (push_events es)
unfolding push_events
ByWrites-push_events [] = ByWrites-pure tt
ByWrites-push_events (e ∷ es) =
    ByWrites-bind (write (push e)) (λ _. push_events es) (ByWrites-write (push e))
      (λ _. ByWrites-push_events es)

ruleset by_writes = (
  ByWrites-pure, ByWrites-write, ByWrites-read, ByWrites-bind, ByWrites-call_driver,
  ByWrites-push_events,
)

module _ (model : Option String) (d : Option RealtimeModel) where
  ByWrites-push_for :
      (agent : Option RealtimeAgent) (event : RealtimeEventInfo → RealtimeEvent)
      → ByWrites (push_for model d agent event)
  ByWrites-push_for none event = ByWrites-pure tt
  ByWrites-push_for (some agent) event =
      ByWrites-write (push (event (info_of model d (some agent.name))))

  ByWrites-connect : (agent : Option RealtimeAgent) → ByWrites (connect_session model d agent)
  unfolding connect_session
  ByWrites-connect agent = search (by_writes, ByWrites-push_for)

  ByWrites-ensure_connected : (b : Bool) → ByWrites (ensure_connected model d b)
  ByWrites-ensure_connected true = ByWrites-pure tt
  ByWrites-ensure_connected false = ByWrites-connect none

  ByWrites-send_text : (text : String) → ByWrites (send_text_to model d text)
  unfolding send_text_to
  ByWrites-send_text text = search (by_writes, ByWrites-ensure_connected)

  ByWrites-send_audio : (bytes : List ℕ) → ByWrites (send_audio_to model d bytes)
  unfolding send_audio_to
  ByWrites-send_audio bytes = search (by_writes, ByWrites-ensure_connected)

  ByWrites-interrupt : (reason : Option String) → ByWrites (interrupt_session model d reason)
  unfolding interrupt_session
  ByWrites-interrupt reason = search by_writes

  ByWrites-tell_driver :
      (s : Option RealtimeSessionModelSettings) → ByWrites (tell_driver model d s)
  ByWrites-tell_driver none = ByWrites-pure tt
  ByWrites-tell_driver (some s) = search by_writes

  ByWrites-push_change :
      (same : Bool) (previous : Option RealtimeAgent) (updated : RealtimeAgent)
      → ByWrites (push_change model d same previous updated)
  ByWrites-push_change true previous updated = ByWrites-pure tt
  ByWrites-push_change false previous updated = search (by_writes, ByWrites-push_for)

  ByWrites-update_agent : (agent : RealtimeAgent) → ByWrites (update_session_agent model d agent)
  unfolding update_session_agent
  ByWrites-update_agent agent =
      search (by_writes, ByWrites-tell_driver, ByWrites-push_change) depth 16

  ByWrites-close : ByWrites (close_session model d)
  unfolding close_session
  ByWrites-close = search (by_writes, ByWrites-push_for) depth 12

  pub perform-ByWrites :
      (o : Operation) (w : World)
      → (ws : List Write) × ((perform model d o w).live ≡ run_writes ws w.live)
  unfolding perform
  perform-ByWrites (Operation.connect agent) w = (ByWrites-connect agent).at w
  perform-ByWrites (Operation.send_text t) w = (ByWrites-send_text t).at w
  perform-ByWrites (Operation.send_audio bytes) w = (ByWrites-send_audio bytes).at w
  perform-ByWrites (Operation.interrupt reason) w = (ByWrites-interrupt reason).at w
  perform-ByWrites (Operation.update_agent agent) w = (ByWrites-update_agent agent).at w
  perform-ByWrites Operation.close w = ByWrites-close.at w
