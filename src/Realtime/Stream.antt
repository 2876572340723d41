-- ===== src/Realtime/Stream.antt =====
-- `stream_events` of crates/agents-realtime/src/session.rs beside a session that goes on: each
-- access to the shared state is a step, and the steps of the reader and the writes interleave.
use openai_agents_rust.Prelude.{
  ℕ, suc, zero, true, false, Option, none, some, List, [], ◌∷◌, ◌++◌, ◌≡◌, ◌≢◌,
}
use openai_agents_rust.Realtime.Events.{RealtimeEvent}
use openai_agents_rust.Realtime.Session.{Live, Write, apply}

-- Where the loop stands: before `event_at`, before `is_closed`, before `revision`, in
-- `wait_for_change_since`, and after the end of the stream.
pub data Position : Type 0 where
  look check read_revision ended : Position
  waiting : ℕ → Position

-- A stream with its state `index`, and what it has delivered.
pub record Reader : Type 0 where
  pub position : Position
  pub index : ℕ
  pub delivered : List RealtimeEvent

unfoldable pub event_at : ℕ → List RealtimeEvent → Option RealtimeEvent
event_at n [] = none
event_at zero (e ∷ es) = some e
event_at (suc n) (e ∷ es) = event_at n es

abbrev pub deliver : Option RealtimeEvent → Reader → Reader
deliver none r = record r { position = check }
deliver (some e) r = record r { index = suc r.index; delivered = r.delivered ++ e ∷ [] }

pub record System : Type 0 where
  pub live : Live
  pub reader : Reader

-- What the reader does next. A waiting reader goes on once the revision is another one.
pub data Reads : System → Position → System → Type 0 where
  look_up :
      {s : System}
      → Reads s look
          (record s { reader = deliver (event_at s.reader.index s.live.state.events) s.reader })
  see_closed :
      {s : System}
      → s.live.state.closed ≡ true
      → Reads s check (record s { reader = record s.reader { position = ended } })
  see_open :
      {s : System}
      → s.live.state.closed ≡ false
      → Reads s check (record s { reader = record s.reader { position = read_revision } })
  take_revision :
      {s : System}
      → Reads s read_revision
          (record s { reader = record s.reader { position = waiting s.live.revision } })
  wake_up :
      {s : System} {revision : ℕ}
      → s.live.revision ≢ revision
      → Reads s (waiting revision) (record s { reader = record s.reader { position = look } })

pub data Step (s : System) : System → Type 0 where
  reads : {t : System} {p : Position} → s.reader.position ≡ p → Reads s p t → Step s t
  writes : (w : Write) → Step s (record s { live = apply w s.live })

-- A stream that is opened on a session reads from its first event on.
abbrev pub open_stream : Live → System
open_stream live = record {
  live = live;
  reader = record { position = look; index = 0; delivered = [] };
}

pub data Reach (s : System) : System → Type 0 where
  here : Reach s s
  next : {t u : System} → Reach s t → Step t u → Reach s u
