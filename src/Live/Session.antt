-- ===== src/Live/Session.antt =====
-- packages/plugin/src/live/session/session.ts: what a session sends and when it is online. An async
-- method is one function for each stretch between two awaits, in the order in which its queue runs
-- them; `epoch` is what the stretch before noted. The document and the peers' cursors stay outside:
-- what is done to them is an effect, and what is read of them an argument.
pub mod Steps
pub mod Kept
pub mod Lossless
pub mod Histories
pub mod Settling
use obsync.Base.{
  ℕ, ◌+◌, Bool, true, false, not, ◌&&◌, ◌||◌, Option, none, some, List, [], ◌∷◌, ◌++◌, Text, Bytes,
  ◌==◌, if◌then◌else◌,
}
use obsync.Relay.Store.{DocState}
use obsync.Live.Outbox.{
  Outbox, new_outbox, Drain, Merge, is_idle, add_pending, stage, drain_staged, take_pending,
  add_unacked, ack, take_unacked, stop_timer, flush, ack_timed_out, ship_pending, ship_unacked,
}
use obsync.Live.RoomLog.{
  RoomLog, new_room_log, lost, is_leaving, forget_leaving, reached, is_compaction_due,
  compacted_now,
}

-- `rest` is what `dispose` took out for its last step.
pub record Session : Type 0 where
  pub has_joined : Bool
  pub online : Bool
  pub epoch : ℕ
  pub disposed : Bool
  pub seed : Option Bytes
  pub moved_to : Option Text
  pub log : RoomLog
  pub outbox : Outbox
  pub rest : Option Bytes

pub data Effect : Type 0 where
  subscribes : ℕ → Effect
  unsubscribes : Effect
  seals_update : ℕ → Bytes → Effect
  sends_update : ℕ → Bytes → Effect
  seals_snapshot : ℕ → Effect
  sends_seed : Bytes → Effect
  applies_seed : Bytes → Effect
  announces : Effect
  drops_peers : Effect
  agrees : ℕ → Effect
  refuses : Effect
  ends_rotation : Effect
  moves : Effect

abbrev pub Result : Type 0
Result = List Effect × Session

-- One stretch, then the next.
infixl 5 ◌then_do◌
abbrev pub ◌then_do◌ : Result → (Session → Result) → Result
r then_do f = (r.0 ++ (f r.1).0, (f r.1).1)

abbrev pub is_synced : Session → Bool
is_synced s = s.has_joined && elim s.moved_to [ none ↦ true | some t ↦ false ]

abbrev pub is_settled : Session → Bool
is_settled s = is_synced s && (not s.disposed && is_idle s.outbox)

abbrev pub subscribe : Session → Result
subscribe s = (Effect.subscribes s.log.seq ∷ [], s)

-- `connected` is whether the hub is.
abbrev pub new_session : ℕ → Bool → Result
new_session known_seq connected =
    let s : Session = record {
      has_joined = false;
      online = false;
      epoch = 0;
      disposed = false;
      seed = none;
      moved_to = none;
      log = new_room_log known_seq;
      outbox = new_outbox;
      rest = none;
    } in
    if connected then subscribe s else ([], s)

-- `sendUpdate` up to the sealing.
unfoldable pub send_update : Bytes → Session → Result
send_update update s =
    let (n, o) = add_unacked update s.outbox in
    (Effect.seals_update n update ∷ [], record s { outbox = o })

-- And what follows it.
unfoldable pub send_sealed : ℕ → Bytes → Session → Result
send_sealed n payload s = if s.online then (Effect.sends_update n payload ∷ [], s) else ([], s)

abbrev pub send_if : Option Bytes → Session → Result
send_if none s = ([], s)
send_if (some update) s = send_update update s

-- `onLocalUpdate` for a change made here; what `attribute` then writes is such a change too.
unfoldable pub on_local_update : Bytes → Session → Session
on_local_update update s =
    if s.disposed then s else record s { outbox = add_pending update s.outbox }

abbrev pub stage_drain : ℕ → Session → Session
stage_drain d s = if s.disposed then s else record s { outbox = stage d s.outbox }

unfoldable pub go_online : Merge → Session → Result
go_online merge s =
    let (resend, o) = take_unacked merge s.outbox in
    send_if resend (record s { online = true; outbox = o }) then_do λ t. (Effect.announces ∷ [], t)

-- `leads` is whether this device compacts for the room.
unfoldable pub settle : Bool → Session → Result
settle leads s =
    if not (is_settled s)
    then ([], s)
    else if not s.online || (not (is_compaction_due s.log) || not leads)
    then (Effect.agrees s.log.seq ∷ [], s)
    else let (upto, l) = compacted_now s.log in
      (Effect.agrees s.log.seq ∷ Effect.seals_snapshot upto ∷ [], record s { log = l })

unfoldable pub on_refused : Session → Result
on_refused s = (Effect.ends_rotation ∷ Effect.refuses ∷ [], record s { online = false })

unfoldable pub on_moved : Text → Session → Result
on_moved target s = (Effect.ends_rotation ∷ Effect.moves ∷ [], record s { moved_to = some target })

unfoldable pub on_connection_change : Bool → Session → Result
on_connection_change connected s =
    if s.disposed
    then ([], s)
    else (let t : Session = record s {
      epoch = s.epoch + 1;
      online = false;
      log = forget_leaving s.log;
    } in
        if connected
        then (Effect.ends_rotation ∷ Effect.subscribes t.log.seq ∷ [], t)
        else (Effect.ends_rotation ∷ Effect.drops_peers ∷ [], t))

abbrev pub with_seq : ℕ → Session → Session
with_seq seq s = record s { log = record s.log { seq = seq } }

-- A seed that the hub took.
abbrev pub seeded : Merge → Option Bytes → Session → Result
seeded merge none s = ([], s)
seeded merge (some seed) s =
    (Effect.applies_seed seed ∷ [], record s { seed = none; has_joined = true })
    then_do go_online merge

-- What went out before an acknowledged update and was dropped goes out again.
abbrev pub resend_dropped : Merge → ℕ → Session → Result
resend_dropped merge n s =
    let (dropped, o) = ack merge n s.outbox in send_if dropped (record s { outbox = o })

unfoldable pub on_echo : Merge → Bool → ℕ → ℕ → Session → Result
on_echo merge leads seq n s =
    (if s.has_joined
      then resend_dropped merge n (with_seq seq s)
      else seeded merge s.seed (with_seq seq s))
    then_do settle leads
