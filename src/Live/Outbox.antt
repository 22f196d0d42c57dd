-- ===== src/Live/Outbox.antt =====
-- packages/plugin/src/live/session/outbox.ts. `merge` is `Y.mergeUpdates` of the package yjs. A staged
-- drain is named by a number: `drain` says which updates it makes the document report, and which
-- drains it stages. A timer is a Bool; a step that is enqueued is returned.
pub mod Held
pub mod Kept
use obsync.Base.{
  ℕ, ◌+◌, Bool, true, false, not, ◌&&◌, Option, none, some, List, [], ◌∷◌, ◌++◌, map, Bytes, length,
  filter, any, ltb, ◌==◌, if◌then◌else◌, ℕ_discrete,
}
use obsync.Base.Dict
use obsync.Base.Dict.{Dict}

pub record Outbox : Type 0 where
  pub pending : List Bytes
  pub unacked : Dict ℕ Bytes
  pub sent : ℕ
  pub staged : List ℕ
  pub timer : Bool
  pub ack_timer : Bool

abbrev pub new_outbox : Outbox
new_outbox = record {
  pending = [];
  unacked = [];
  sent = 0;
  staged = [];
  timer = false;
  ack_timer = false;
}

-- What `enqueue` is given.
pub data QueuedStep : Type 0 where
  ship_pending : QueuedStep
  ship_unacked : QueuedStep

abbrev pub is_idle : Outbox → Bool
is_idle o = length o.staged == 0 && (length o.pending == 0 && length o.unacked == 0)

abbrev pub arm_flush : Outbox → Outbox
arm_flush o = record o { timer = true }

unfoldable pub add_pending : Bytes → Outbox → Outbox
add_pending update o = arm_flush (record o { pending = o.pending ++ update ∷ [] })

abbrev pub is_staged : ℕ → List ℕ → Bool
is_staged d staged = any (λ e. e == d) staged

unfoldable pub stage : ℕ → Outbox → Outbox
stage d o =
    arm_flush (record o { staged = if is_staged d o.staged then o.staged else o.staged ++ d ∷ [] })

-- A drain's effects: each update is added, and each drain that it stages.
abbrev pub add_all : List Bytes → Outbox → Outbox
add_all [] o = o
add_all (u ∷ updates) o = add_all updates (add_pending u o)

abbrev pub stage_all : List ℕ → Outbox → Outbox
stage_all [] o = o
stage_all (d ∷ drains) o = stage_all drains (stage d o)

abbrev pub Drain : Type 0
Drain = ℕ → List Bytes × List ℕ

-- The loop of `drainStaged`, over the drains that it copied.
unfoldable pub drain_all : Drain → List ℕ → Outbox → Outbox
drain_all drain [] o = o
drain_all drain (d ∷ drains) o =
    let taken = record o { staged = filter (λ e. not (e == d)) o.staged } in
    drain_all drain drains (stage_all (drain d).1 (add_all (drain d).0 taken))

abbrev pub drain_staged : Drain → Outbox → Outbox
drain_staged drain o = drain_all drain o.staged o

abbrev pub Merge : Type 0
Merge = List Bytes → Bytes

unfoldable pub take_merged : Merge → List Bytes → Option Bytes
take_merged merge [] = none
take_merged merge (u ∷ updates) = some (merge (u ∷ updates))

unfoldable pub take_pending : Merge → Outbox → Option Bytes × Outbox
unfolding take_merged
take_pending merge o = (take_merged merge o.pending, record o { pending = [] })

unfoldable pub add_unacked : Bytes → Outbox → ℕ × Outbox
add_unacked update o = (
  o.sent + 1,
  record o {
    sent = o.sent + 1;
    unacked = Dict.insert ℕ_discrete (o.sent + 1) update o.unacked;
    ack_timer = true;
  },
)

-- The loop of `ack`: the entries up to `n`, and the rest.
unfoldable pub take_before : ℕ → Dict ℕ Bytes → List Bytes × Dict ℕ Bytes
take_before n [] = ([], [])
take_before n ((at, update) ∷ unacked) =
    let rest = take_before n unacked in
    if ltb n at then ([], (at, update) ∷ unacked) else (update ∷ rest.0, rest.1)

unfoldable pub ack : Merge → ℕ → Outbox → Option Bytes × Outbox
unfolding take_merged take_before
ack merge n o = elim (Dict.lookup ℕ_discrete n o.unacked) [
  | none ↦ (none, o)
  | some update ↦
      let (dropped, rest) = take_before n (Dict.erase ℕ_discrete n o.unacked) in
      (take_merged merge dropped, record o { unacked = rest; ack_timer = not (length rest == 0) })
]

abbrev pub updates {ℓ} : {V : Type ℓ} → List (ℕ × V) → List V
updates [] = []
updates ((n, v) ∷ m) = v ∷ updates m

unfoldable pub take_unacked : Merge → Outbox → Option Bytes × Outbox
unfolding take_merged
take_unacked merge o =
    (take_merged merge (updates o.unacked), record o { unacked = []; ack_timer = false })

-- `stopTimer`: the flush timer is cleared without being forgotten, so that `armFlush` sets no other.
unfoldable pub stop_timer : Outbox → Outbox
stop_timer o = record o { ack_timer = false }

unfoldable pub flush : Drain → Outbox → QueuedStep × Outbox
unfolding drain_all
flush drain o =
    let drained = record (drain_staged drain o) { timer = false } in
    (ship_pending, if length drained.staged == 0 then drained else arm_flush drained)

unfoldable pub ack_timed_out : Outbox → QueuedStep × Outbox
ack_timed_out o = (ship_unacked, record o { ack_timer = false })
