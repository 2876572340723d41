-- ===== src/Realtime/Delivery.antt =====
-- What a stream of events of crates/agents-realtime/src/session.rs delivers, in every order of the
-- steps of its reader and of the session.
use openai_agents_rust.Prelude.{
  ℕ, suc, zero, true, false, Option, none, some, List, [], ◌∷◌, ◌++◌, length, ◌≡◌, ◌⊎◌, refl, ap,
  sym, subst, ◌∙◌, arith, drop, append_assoc, append-nil, length-append, inl, inr,
}
use openai_agents_rust.Realtime.Events.{RealtimeEvent}
use openai_agents_rust.Realtime.Session.{
  Live, Write, push, open_for, set_agent, shut, apply, push_event,
}
use openai_agents_rust.Realtime.Stream.{
  Position, look, check, read_revision, ended, waiting, Reader, event_at, deliver, System, Reads,
  look_up, see_closed, see_open, take_revision, wake_up, Step, reads, writes, open_stream, Reach,
  here, next,
}

-- The log is what the reader has delivered, and then what it has not.
pub record IsCut (s : System) : Type 0 where
  pub log_cut : s.live.state.events ≡ s.reader.delivered ++ drop s.reader.index s.live.state.events
  pub index_counts : length s.reader.delivered ≡ s.reader.index

event_at-some :
    (n : ℕ) (es : List RealtimeEvent) (e : RealtimeEvent)
    → event_at n es ≡ some e
    → drop n es ≡ e ∷ drop (suc n) es
unfolding event_at
event_at-some n [] e h = cc
event_at-some zero (x ∷ es) e h = cc
event_at-some (suc n) (x ∷ es) e h = event_at-some n es e h

event_at-none : (n : ℕ) (es : List RealtimeEvent) → event_at n es ≡ none → drop n es ≡ []
unfolding event_at
event_at-none zero [] h = refl
event_at-none (suc n) [] h = refl
event_at-none zero (x ∷ es) h = cc
event_at-none (suc n) (x ∷ es) h = event_at-none n es h

drop-snoc :
    (xs ds : List RealtimeEvent) (n : ℕ) (e : RealtimeEvent)
    → length ds ≡ n
    → xs ≡ ds ++ drop n xs
    → xs ++ e ∷ [] ≡ ds ++ drop n (xs ++ e ∷ [])
drop-snoc xs [] zero e l h = refl
drop-snoc xs [] (suc n) e l h = absurd (omega arith)
drop-snoc xs (d ∷ ds) zero e l h = absurd (omega arith)
drop-snoc [] (d ∷ ds) (suc n) e l h = cc
drop-snoc (x ∷ xs) (d ∷ ds) (suc n) e l h = cc (drop-snoc xs ds n e (omega arith) (cc))

apply-events :
    (w : Write) (live : Live)
    → ((apply w live).state.events ≡ live.state.events)
      ⊎ ((e : RealtimeEvent) × ((apply w live).state.events ≡ live.state.events ++ e ∷ []))
unfolding apply
apply-events (push e) live = inr (e, refl)
apply-events (open_for agent) live = inl refl
apply-events (set_agent agent settings) live = inl refl
apply-events shut live = inl refl

deliver-cut :
    (o : Option RealtimeEvent) (r : Reader) (es : List RealtimeEvent)
    → event_at r.index es ≡ o
    → es ≡ r.delivered ++ drop r.index es
    → length r.delivered ≡ r.index
    → (es ≡ (deliver o r).delivered ++ drop (deliver o r).index es)
      × (length (deliver o r).delivered ≡ (deliver o r).index)
deliver-cut none r es e h l = (h, l)
deliver-cut (some x) r es e h l = (
  h
      ∙ ap (λ ys. r.delivered ++ ys) (event_at-some r.index es x e)
      ∙ sym (append_assoc r.delivered (x ∷ []) (drop (suc r.index) es)),
  omega (arith, length-append r.delivered (x ∷ []), l),
)

Reads-IsCut : {s t : System} {p : Position} → Reads s p t → IsCut s → IsCut t
Reads-IsCut {s} look_up h =
    let (cut, counts) =
      deliver-cut (event_at s.reader.index s.live.state.events) s.reader s.live.state.events refl
        h.log_cut h.index_counts in
    record { log_cut = cut; index_counts = counts }
Reads-IsCut (see_closed c) h = record { log_cut = h.log_cut; index_counts = h.index_counts }
Reads-IsCut (see_open c) h = record { log_cut = h.log_cut; index_counts = h.index_counts }
Reads-IsCut take_revision h = record { log_cut = h.log_cut; index_counts = h.index_counts }
Reads-IsCut (wake_up c) h = record { log_cut = h.log_cut; index_counts = h.index_counts }

Step-IsCut : {s t : System} → Step s t → IsCut s → IsCut t
Step-IsCut (reads e r) h = Reads-IsCut r h
Step-IsCut {s} (writes w) h = elim (apply-events w s.live) [
  | inl e ↦ record { log_cut = rw e h.log_cut; index_counts = h.index_counts }
  | inr (x, e) ↦ record {
    log_cut = rw e (
        drop-snoc s.live.state.events s.reader.delivered s.reader.index x h.index_counts h.log_cut);
    index_counts = h.index_counts;
  }
]

open-IsCut : (live : Live) → IsCut (open_stream live)
open-IsCut live = record { log_cut = refl; index_counts = refl }

-- In every order of the steps, a stream has delivered the first events of the log, each once and in
-- the order of the log, as many as its index says.
pub Reach-IsCut : {live : Live} {s : System} → Reach (open_stream live) s → IsCut s
Reach-IsCut {live} here = open-IsCut live
Reach-IsCut (next r st) = Step-IsCut st (Reach-IsCut r)

-- Steps of the reader alone.
pub data Alone : System → System → Type 0 where
  rests : {s : System} → Alone s s
  reads_on :
      {s t u : System} {p : Position} → s.reader.position ≡ p → Reads s p t → Alone t u → Alone s u

look_up-eq :
    (s : System) (o : Option RealtimeEvent)
    → event_at s.reader.index s.live.state.events ≡ o
    → Reads s look (record s { reader = deliver o s.reader })
look_up-eq s o e = subst (λ x. Reads s look (record s { reader = deliver x s.reader })) e look_up

drop-nil : (n : ℕ) (es : List RealtimeEvent) → drop n es ≡ [] → event_at n es ≡ none
unfolding event_at
drop-nil n [] h = refl
drop-nil zero (x ∷ es) h = cc
drop-nil (suc n) (x ∷ es) h = drop-nil n es h

drop-cons :
    (n : ℕ) (es : List RealtimeEvent) (x : RealtimeEvent) (left : List RealtimeEvent)
    → drop n es ≡ x ∷ left
    → (event_at n es ≡ some x) × (drop (suc n) es ≡ left)
unfolding event_at
drop-cons zero [] x left h = cc
drop-cons (suc n) [] x left h = cc
drop-cons zero (y ∷ es) x left h = (cc, cc)
drop-cons (suc n) (y ∷ es) x left h = drop-cons n es x left h

abbrev Finishes : System → Type 0
Finishes s =
    (t : System) × Alone s t
    × (t.reader.position ≡ ended)
    × (t.reader.delivered ≡ s.reader.delivered ++ drop s.reader.index s.live.state.events)

finish_from :
    (left : List RealtimeEvent) (s : System)
    → drop s.reader.index s.live.state.events ≡ left
    → s.reader.position ≡ look
    → s.live.state.closed ≡ true
    → Finishes s
finish_from [] s d h c =
    let caught_up = record s { reader = record s.reader { position = check } } in
    (
      record caught_up { reader = record caught_up.reader { position = ended } },
      reads_on h (look_up-eq s none (drop-nil s.reader.index s.live.state.events d))
          (reads_on refl (see_closed c) rests),
      refl,
      rw d (sym (append-nil s.reader.delivered)),
    )
finish_from (x ∷ left) s d h c =
    let (e, d') = drop-cons s.reader.index s.live.state.events x left d in
    let (t, alone, over, all) =
      finish_from left (record s { reader = deliver (some x) s.reader }) d' h c in
    (
      t,
      reads_on h (look_up-eq s (some x) e) alone,
      over,
      all
          ∙ append_assoc s.reader.delivered (x ∷ []) (drop (suc s.reader.index) s.live.state.events)
          ∙ ap (λ ys. s.reader.delivered ++ ys)
              (sym (event_at-some s.reader.index s.live.state.events x e)),
    )

-- A stream that is about to look for its next event when the session is closed and writes no more
-- comes to its end by its own steps, and has then delivered the whole log.
pub stream_finishes :
    {live : Live} {s : System}
    → Reach (open_stream live) s
    → s.reader.position ≡ look
    → s.live.state.closed ≡ true
    → (t : System) × Alone s t
      × (t.reader.position ≡ ended)
      × (t.reader.delivered ≡ s.live.state.events)
stream_finishes {s} r h c =
    let (t, alone, over, all) = finish_from (drop s.reader.index s.live.state.events) s refl h c in
    (t, alone, over, all ∙ sym (Reach-IsCut r).log_cut)

-- A reader that waits for a change after the present revision takes no step.
stays_asleep : {s u : System} {p : Position} → Reads s p u → p ≡ waiting s.live.revision → ⊥
stays_asleep look_up e = cc
stays_asleep (see_closed c) e = cc
stays_asleep (see_open c) e = cc
stays_asleep take_revision e = cc
stays_asleep (wake_up c) e = c (cc)

-- Of a stream that is about to look for its next event on a session that is not closed and has no
-- event left, for every event there is an order of the steps in which the event is pushed, is not
-- delivered, and the reader waits and cannot go on until the session writes again.
pub lost_wakeup :
    (s : System) (event : RealtimeEvent)
    → s.reader.position ≡ look
    → event_at s.reader.index s.live.state.events ≡ none
    → s.live.state.closed ≡ false
    → (t : System) × Reach s t
      × (t.live ≡ push_event event s.live)
      × (t.reader.delivered ≡ s.reader.delivered)
      × ((u : System) → ¬ Reads t t.reader.position u)
unfolding apply
lost_wakeup s event h e c =
    let checking = record s { reader = record s.reader { position = check } } in
    let late = record checking { reader = record s.reader { position = read_revision } } in
    let pushed = record late { live = push_event event s.live } in
    let asleep = record pushed {
      reader = record s.reader { position = waiting pushed.live.revision };
    } in
    (
      asleep,
      next
          (next
            (next (next here (reads h (look_up-eq s none e)))
              (reads refl (see_open {s = checking} c)))
            (writes (push event)))
          (reads refl (take_revision {s = pushed})),
      refl,
      refl,
      λ u r. stays_asleep r refl,
    )

-- Of a stream that has no event left, there is an order of the steps in which the session is closed,
-- the stream ends, and an event that comes after it is never delivered.
cut_off :
    (s : System) (event : RealtimeEvent)
    → s.reader.position ≡ look
    → event_at s.reader.index s.live.state.events ≡ none
    → (t : System) × Reach s t
      × (t.live ≡ push_event event (apply shut s.live))
      × (t.reader.position ≡ ended)
      × (t.reader.delivered ≡ s.reader.delivered)
unfolding apply
cut_off s event h e =
    let checking = record s { reader = record s.reader { position = check } } in
    let closed = record checking { live = apply shut s.live } in
    let over = record closed { reader = record s.reader { position = ended } } in
    (
      record over { live = push_event event (apply shut s.live) },
      next
          (next (next (next here (reads h (look_up-eq s none e))) (writes shut))
            (reads refl (see_closed {s = closed} refl)))
          (writes (push event)),
      refl,
      refl,
      refl,
    )
