-- ===== src/Tests/Hubs.antt =====
-- The relay at a small hub.
use obsync.Base.{
  ◌≡◌, ◌≢◌, ◌≤◌, ◌*◌, ◌+◌, ◌-◌, ◌++◌, refl, inl, inr, true, false, none, List, [], ◌∷◌, arith,
  Bytes, codes, same, text_dec, ℕ_discrete, ap, All, length,
}
use obsync.Protocol.Frames.{ClientBody, ServerBody}
use obsync.Base.Dict
use obsync.Base.Decimal.{decimal}
use obsync.Protocol.Bytes.{read_text, read_u8, read_u32, read_take, read_rest}
use obsync.Protocol.Codec.{decode_client, read_header, read_client}
use obsync.Relay.Limits
use obsync.Relay.Delivery.{broadcast, offer}
use obsync.Relay.Limits.{allows, allows_read_only, new_limits, frames_rate}
use obsync.Relay.Limits.Bounds.{Arrival, passed, passed-le}
use obsync.Relay.Peer.{Effect, follows, slot_of, index_on, follows}
use obsync.Relay.Delivery.{send, to_followers}
use obsync.Relay.Store
use obsync.Relay.Store.{new_store, cache_key}
use obsync.Relay.Store.CacheKey.{cache_key-injective}
use obsync.Relay.Store.Spec
use obsync.Relay.Store.Spec.{new_spec, updates}
use obsync.Relay.Store.Tracking.{Tracks}
use obsync.Relay.Store.History.{run, spec_run, run-Tracks}
use obsync.Relay.Store.Snapshots.{IsHonest}
use obsync.Relay.Store.Reader.{CatchesUp, run-CatchesUp}
use obsync.Relay.Documents
use obsync.Relay.Documents.{FrameContext}
use obsync.Relay.Documents.Isolation.{IsPrivate, handle-IsPrivate}
use obsync.Relay.Documents.Writes.{SameRows, handle-SameRows}
use obsync.Relay.Core
use obsync.Relay.Core.Guards.{IsBounded, handle-IsReader, handle-IsBounded}
use obsync.Relay.Core.Revocation.{
  HasUniqueTags, slots_of, kept_slots, drop-slots, close_channel-IsClosed,
}
use obsync.Tests.Sample.{ascii, notes, other, doc, writer, reader, ann, bob, history, moving, hub}

abbrev from_ann : FrameContext
from_ann = record { peers = hub.peers; peer = ann; grant = writer }

abbrev from_bob : FrameContext
from_bob = record { peers = hub.peers; peer = bob; grant = reader }

run-Tracks_example :
    ((run moving new_store).0 ≡ (spec_run moving new_spec).0)
    × Tracks (run moving new_store).1 (spec_run moving new_spec).1
run-Tracks_example = run-Tracks moving

-- Clients whose updates are pieces of a text, and whose snapshots are the pieces joined.
abbrev joined : List Bytes → Bytes
joined [] = []
joined (u ∷ us) = u ++ joined us

abbrev IsJoined : Bytes → List Bytes → Type 0
IsJoined b us = b ≡ joined us

history-IsHonest : IsHonest IsJoined history new_spec
unfolding Spec.append Spec.seed text_dec ℕ_discrete
history-IsHonest = (tt, (tt, (tt, (tt, (refl, (tt, tt))))))

run-CatchesUp_example :
    CatchesUp IsJoined 1
      (updates ((spec_run history new_spec).1.logs notes doc))
      (Store.state notes doc 1 (run history new_store).1)
run-CatchesUp_example = run-CatchesUp IsJoined history notes doc 1 history-IsHonest

handle-IsPrivate_example :
    IsPrivate from_ann doc
      (Documents.handle from_ann 0 doc (ClientBody.update 7 (6 ∷ [])) (codes "l5") hub.store)
handle-IsPrivate_example =
    handle-IsPrivate from_ann 0 doc (ClientBody.update 7 (6 ∷ [])) (codes "l5") hub.store

handle-SameRows_example :
    SameRows hub.store
      (Documents.handle from_bob 1 doc
        (ClientBody.snapshot 3 (6 ∷ []))
        (codes "l5")
        hub.store).store
handle-SameRows_example =
    handle-SameRows from_bob 1 doc (ClientBody.snapshot 3 (6 ∷ [])) (codes "l5") hub.store
      (inr (inl refl))

-- The bytes of an update to the document, from the writer: an echo to her, and the update to the
-- reader on his own slot.
update_from_ann :
    (Core.handle ascii hub ann (3 ∷ 0 ∷ 1 ∷ 100 ∷ 0 ∷ 0 ∷ 0 ∷ 7 ∷ 6 ∷ []) 50 (codes "l5")).1
    ≡ Effect.sent 1 (record { slot = 0; doc = doc; body = ServerBody.echo 4 7 })
      ∷ Effect.sent 2 (record { slot = 1; doc = doc; body = ServerBody.fanout 4 1 (6 ∷ []) })
      ∷ []
unfolding Core.handle Core.admit Core.dispatch decode_client read_header read_client read_text
    read_u8 read_u32 read_take read_rest allows allows_read_only Limits.take Documents.handle
    Documents.followed Documents.unless_moved Documents.live Documents.write Documents.logged
    Store.append Store.insert Store.row Store.seed Store.compact Store.moved_to Store.remember
    Store.cache_key Store.insert_delta decimal run send to_followers broadcast offer slot_of
    index_on follows Dict.lookup Dict.insert text_dec ℕ_discrete
update_from_ann = refl

-- The bytes of an update to the document, from the reader.
handle-IsReader_example :
    SameRows hub.store
      (Core.handle ascii hub bob (3 ∷ 1 ∷ 1 ∷ 100 ∷ 0 ∷ 0 ∷ 0 ∷ 1 ∷ 6 ∷ []) 50 (codes "l5")).0.store
handle-IsReader_example =
    handle-IsReader ascii hub bob (3 ∷ 1 ∷ 1 ∷ 100 ∷ 0 ∷ 0 ∷ 0 ∷ 1 ∷ 6 ∷ []) 50 (codes "l5")
      (tt, (refl, tt))

-- The bytes of a subscription to another document.
handle-IsBounded_example :
    All IsBounded
      (Core.handle ascii hub ann (1 ∷ 0 ∷ 1 ∷ 101 ∷ 0 ∷ 0 ∷ 0 ∷ 0 ∷ []) 50 (codes "l5")).0.peers
handle-IsBounded_example =
    handle-IsBounded ascii hub ann (1 ∷ 0 ∷ 1 ∷ 101 ∷ 0 ∷ 0 ∷ 0 ∷ 0 ∷ []) 50 (codes "l5")
      (omega arith) (omega arith, (omega arith, tt))

abbrev arrivals : List Arrival
arrivals =
    record { tag = 1; body = ClientBody.signal; read_only = false; size = 4; now = 10 }
    ∷ record { tag = 2; body = ClientBody.unsub; read_only = true; size = 4; now = 10 }
    ∷ record { tag = 1; body = ClientBody.unsub; read_only = true; size = 4; now = 500 }
    ∷ []

passed-le_example :
    1000 * passed 1 new_limits arrivals
    ≤ 1000 * frames_rate.burst + frames_rate.per_second * (600 - 0)
passed-le_example =
    passed-le 1 arrivals 0 600 (omega arith, (omega arith, (omega arith, omega arith)))

unique : HasUniqueTags hub.peers
unique = ((λ e. omega (arith, e), tt), (tt, tt))

drop-slots_example :
    slots_of
      (λ g. same g.grant (codes "g2"))
      (Core.drop (λ g. same g.grant (codes "g2")) hub).0.peers
    ≡ kept_slots (λ g. same g.grant (codes "g2")) hub.peers
drop-slots_example = drop-slots (λ g. same g.grant (codes "g2")) hub unique

apart : notes ≢ other
apart e = omega (arith, ap length e)

close_channel-IsClosed_example :
    let left = (Core.close_channel notes hub).0 in
    (slots_of (λ g. same g.channel notes) left.peers
      ≡ kept_slots (λ g. same g.channel notes) hub.peers)
    × (Store.state notes doc 0 left.store
        ≡ record { head = 0; snapshot = none; deltas = []; log = [] })
    × ((Store.moved_to notes doc left.store).0 ≡ none)
    × (Store.state other doc 0 left.store ≡ Store.state other doc 0 hub.store)
    × ((Store.moved_to other doc left.store).0 ≡ (Store.moved_to other doc hub.store).0)
close_channel-IsClosed_example =
    close_channel-IsClosed hub (spec_run history new_spec).1 notes doc other doc 0 unique
      (run-Tracks history).1 apart

cache_key-injective_example : (notes ≡ notes) × (doc ≡ doc)
cache_key-injective_example = cache_key-injective notes doc notes doc refl
