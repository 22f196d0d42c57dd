-- ===== src/Live/Session/Steps.antt =====
-- The handlers of packages/plugin/src/live/session/session.ts that wait, its end, and its history.
use obsync.Base.{
  ℕ, Bool, true, false, not, ◌&&◌, ◌||◌, Option, none, some, List, [], ◌∷◌, ◌++◌, Text, Bytes, ◌==◌,
  if◌then◌else◌, Text,
}
use obsync.Relay.Store.{DocState}
use obsync.Live.Outbox.{
  Drain, Merge, drain_staged, take_pending, take_unacked, stop_timer, flush, ack_timed_out,
}
use obsync.Live.Outbox.Held.{drained}
use obsync.Live.Outbox.Kept.{acked_by}
use obsync.Live.RoomLog.{lost, is_leaving, leave, reached}
use obsync.Live.Session.{
  Session, Effect, Result, ◌then_do◌, send_update, send_sealed, send_if, on_local_update,
  stage_drain, go_online, settle, on_refused, on_moved, on_connection_change, on_echo, new_session,
}

-- `onState` until it unseals: a lost log takes the session offline, and `moveOn` asks for a successor.
unfoldable pub on_state : DocState → Session → Session
on_state frame s = if lost frame s.log then record s { online = false } else s

-- The end of `onState`. Online already, the room answered a refused rotation.
unfoldable pub after_state : Merge → Bool → Session → Result
after_state merge leads s =
    (if s.online then (Effect.ends_rotation ∷ [], s) else go_online merge s) then_do settle leads

-- `join` up to its wait: a room with no history waits for a seed, and another one for the disk.
abbrev pub join : DocState → Session → Result
join frame s = if frame.head == 0 then ([], s) else ([], record s { seed = none })

-- What it does once the payloads are unsealed: `readable` is whether every one of them was and could be
-- applied.
unfoldable pub on_state_unsealed : Merge → Bool → ℕ → Bool → DocState → Session → Result
on_state_unsealed merge leads epoch readable frame s =
    if not (epoch == s.epoch) || s.disposed
    then ([], s)
    else if not readable
    then on_refused s
    else if not s.has_joined
    then join frame (record s { log = reached frame s.log })
    else after_state merge leads (record s { log = reached frame s.log })

-- After `reconcile`, which folded the disk in: `markJoined`, and on.
unfoldable pub on_reconciled : Merge → Bool → ℕ → Session → Result
on_reconciled merge leads epoch s =
    if not (epoch == s.epoch) || s.disposed
    then ([], record s { has_joined = true })
    else after_state merge leads (record s { has_joined = true })

-- `offerSeed` after the sealing.
unfoldable pub on_seed_sealed : ℕ → Bytes → Session → Result
on_seed_sealed epoch seed s =
    if not (epoch == s.epoch)
    then ([], s)
    else (Effect.sends_seed seed ∷ [], record s { seed = some seed })

-- `moveOn` after the sealing; its frame `Rotate` is an answer to the room.
unfoldable pub on_content_sealed : ℕ → DocState → Session → Session
on_content_sealed epoch frame s =
    if not (epoch == s.epoch) then s else record s { log = leave frame s.log }

-- `onFanout` after `apply`.
unfoldable pub on_fanout_applied : Bool → ℕ → Bool → ℕ → Session → Result
unfolding settle
on_fanout_applied leads epoch applied seq s =
    if not s.has_joined || is_leaving s.log
    then ([], s)
    else if not (epoch == s.epoch) || s.disposed
    then ([], s)
    else if not applied
    then on_refused s
    else settle leads (record s { log = record s.log { seq = seq } })

-- A drain reports nothing to a session that is disposed.
abbrev pub drain_of : Drain → Session → Drain
drain_of drain s = if s.disposed then (λ d. ([], [])) else drain

unfoldable pub drain_session : Drain → Session → Session
drain_session drain s = record s { outbox = drain_staged (drain_of drain s) s.outbox }

-- `dispose` past its guard.
unfoldable pub dispose_now : Drain → Merge → Session → Result
unfolding drain_session
dispose_now drain merge s =
    let t = drain_session drain s in
    let (rest, o) = take_pending merge (stop_timer t.outbox) in
    (Effect.ends_rotation ∷ [], record t { disposed = true; outbox = o; rest = rest })

unfoldable pub dispose : Drain → Merge → Session → Result
unfolding dispose_now
dispose drain merge s = if s.disposed then ([], s) else dispose_now drain merge s

-- The step that `dispose` enqueues.
unfoldable pub finish : Session → Result
finish s = send_if s.rest (record s { rest = none }) then_do λ t. (Effect.unsubscribes ∷ [], t)

-- The flush's timer, which `stopTimer` cleared for good, and the step that it enqueues.
unfoldable pub on_flush : Drain → Session → Session
on_flush drain s = if s.disposed then s else record s { outbox = (flush drain s.outbox).1 }

abbrev pub ship_or_settle : Bool → Option Bytes → Session → Result
ship_or_settle leads none s = settle leads s
ship_or_settle leads (some update) s = send_update update s

unfoldable pub ship_step : Merge → Bool → Session → Result
ship_step merge leads s =
    let (merged, o) = take_pending merge s.outbox in
    ship_or_settle leads merged (record s { outbox = o })

-- The step that `ackTimedOut` enqueues.
unfoldable pub resend_step : Merge → Session → Result
resend_step merge s =
    if not (s.online && not s.disposed)
    then ([], s)
    else (let (all, o) = take_unacked merge s.outbox in send_if all (record s { outbox = o }))

pub data Event : Type 0 where
  edited : Bytes → Event
  staged : ℕ → Event
  drains : Event
  flushes : Event
  ships : Bool → Event
  times_out : Event
  resends : Event
  update_sealed : ℕ → Bytes → Event
  echoed : Bool → ℕ → ℕ → Event
  state_came : DocState → Event
  state_unsealed : Bool → ℕ → Bool → DocState → Event
  reconciled : Bool → ℕ → Event
  seed_sealed : ℕ → Bytes → Event
  content_sealed : ℕ → DocState → Event
  fanout_applied : Bool → ℕ → Bool → ℕ → Event
  connection_changed : Bool → Event
  moved : Text → Event
  refused : Event
  disposes : Event
  finishes : Event

-- A history: the session after it, every edit made in it, and every update acknowledged.
pub record History : Type 0 where
  pub session : Session
  pub edits : List Bytes
  pub acked : List Bytes

abbrev pub some_list : Option Bytes → List Bytes
some_list none = []
some_list (some u) = u ∷ []

abbrev pub start : ℕ → Bool → History
start known_seq connected = record {
  session = (new_session known_seq connected).1;
  edits = [];
  acked = [];
}

module _ (drain : Drain) (merge : Merge) where
  unfoldable pub step : Event → Session → Result
  unfolding ship_step resend_step on_flush
  step (edited u) s = ([], on_local_update u s)
  step (staged d) s = ([], stage_drain d s)
  step drains s = ([], drain_session drain s)
  step flushes s = ([], on_flush drain s)
  step (ships leads) s = ship_step merge leads s
  step times_out s = ([], record s { outbox = (ack_timed_out s.outbox).1 })
  step resends s = resend_step merge s
  step (update_sealed n u) s = send_sealed n u s
  step (echoed leads seq n) s = on_echo merge leads seq n s
  step (state_came frame) s = ([], on_state frame s)
  step (state_unsealed leads epoch readable frame) s =
      on_state_unsealed merge leads epoch readable frame s
  step (reconciled leads epoch) s = on_reconciled merge leads epoch s
  step (seed_sealed epoch seed) s = on_seed_sealed epoch seed s
  step (content_sealed epoch frame) s = ([], on_content_sealed epoch frame s)
  step (fanout_applied leads epoch applied seq) s = on_fanout_applied leads epoch applied seq s
  step (connection_changed connected) s = on_connection_change connected s
  step (moved target) s = on_moved target s
  step refused s = on_refused s
  step disposes s = dispose drain merge s
  step finishes s = finish s

  -- The updates that an event makes the document report.
  abbrev pub edits_of : Event → Session → List Bytes
  edits_of (edited u) s = if s.disposed then [] else u ∷ []
  edits_of drains s = drained (drain_of drain s) s.outbox.staged
  edits_of flushes s = if s.disposed then [] else drained drain s.outbox.staged
  edits_of disposes s = if s.disposed then [] else drained (drain_of drain s) s.outbox.staged
  edits_of _ s = []

  -- The update that an event acknowledges.
  abbrev pub acked_of : Event → Session → Option Bytes
  acked_of (echoed leads seq n) s = if s.has_joined then acked_by n s.outbox else none
  acked_of _ s = none

  unfoldable pub run : List Event → History → History
  run [] h = h
  run (e ∷ events) h = run events record {
    session = (step e h.session).1;
    edits = h.edits ++ edits_of e h.session;
    acked = h.acked ++ some_list (acked_of e h.session);
  }
