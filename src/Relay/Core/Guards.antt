-- ===== src/Relay/Core/Guards.antt =====
-- What the bytes of a socket cannot do to the hub.
use obsync.Base.{
  ℕ, zero, suc, ◌≤◌, ◌<◌, ◌≡◌, refl, inl, inr, Bool, true, not, Option, none, some, List, [], ◌∷◌,
  arith, Text, Bytes, length, filter, All, if◌then◌else◌, Option-cases, length-append,
}
use obsync.Protocol.Bytes.{TextCoding}
use obsync.Protocol.Codec.{decode_client}
use obsync.Protocol.Frames.{ClientBody, ClientFrame, max_doc_subs}
use obsync.Relay.Limits.{allows}
use obsync.Relay.Peer.{Grant, DocSub, Peer, follows, subscribe, unsubscribe, replace, is_sub}
use obsync.Relay.Store
use obsync.Relay.Store.{Store, is_null}
use obsync.Relay.Documents
use obsync.Relay.Documents.{FrameContext, Outcome, grant_at}
use obsync.Relay.Documents.Writes.{SameRows, handle-SameRows}
use obsync.Relay.Core
use obsync.Relay.Core.{Hub}

-- Nothing that the socket was admitted to can be written.
abbrev pub IsReader : Option Grant → Type 0
IsReader none = Unit
IsReader (some g) = g.read_only ≡ true

grant_at-IsReader :
    (slots : List (Option Grant)) (i : ℕ) → All IsReader slots → IsReader (grant_at slots i)
grant_at-IsReader [] i h = tt
grant_at-IsReader (g ∷ slots) zero h = h.0
grant_at-IsReader (g ∷ slots) (suc i) h = grant_at-IsReader slots i h.1

dispatch-SameRows :
    (hub : Hub) (peer : Peer) (grant : Grant) (frame : ClientFrame) (size : ℕ) (drawn : Text)
    → grant.read_only ≡ true
    → SameRows hub.store (Core.dispatch hub peer grant frame size drawn).0.store
unfolding Core.dispatch
dispatch-SameRows hub peer grant frame size drawn h =
    let x : FrameContext = record { peers = hub.peers; peer = peer; grant = grant } in
    ground (arith, handle-SameRows x frame.slot frame.doc frame.body drawn hub.store (inr (inl h)))

admit-SameRows :
    (hub : Hub) (peer : Peer) (g : Option Grant) (frame : ClientFrame) (size now : ℕ) (drawn : Text)
    → IsReader g
    → SameRows hub.store (Core.admit hub peer g frame size now drawn).0.store
unfolding Core.admit
admit-SameRows hub peer none frame size now drawn h = (refl, refl)
admit-SameRows hub peer (some grant) frame size now drawn h =
    let limits = (allows hub.limits peer.tag frame.body grant.read_only size now).1 in
    ground (arith, dispatch-SameRows (record hub { limits = limits }) peer grant frame size drawn h)

-- Whatever bytes a socket sends that was admitted to read only, no row of the store changes.
pub handle-IsReader :
    (c : TextCoding) (hub : Hub) (peer : Peer) (bytes : Bytes) (now : ℕ) (drawn : Text)
    → All IsReader peer.slots
    → SameRows hub.store (Core.handle c hub peer bytes now drawn).0.store
unfolding Core.handle
handle-IsReader c hub peer bytes now drawn h = elim (Option-cases (decode_client c bytes)) [
  | inl e ↦ rw (e, Core.handle) (refl, refl)
  | inr (frame, e) ↦
      rw (e, Core.handle)
        (admit-SameRows hub peer (grant_at peer.slots frame.slot) frame (length bytes) now drawn
          (grant_at-IsReader peer.slots frame.slot h))
]

-- No socket follows more documents than the hub can keep for it.
abbrev pub IsBounded : Peer → Type 0
IsBounded p = length p.subs ≤ max_doc_subs

replace-IsBounded :
    (p : Peer) (peers : List Peer)
    → IsBounded p
    → All IsBounded peers
    → All IsBounded (replace p peers)
unfolding replace
replace-IsBounded p [] h k = tt
replace-IsBounded p (q ∷ peers) h k = ground (arith, replace-IsBounded p peers h k.1)

length-filter-le : (t : DocSub → Bool) (subs : List DocSub) → length (filter t subs) ≤ length subs
length-filter-le t [] = omega arith
length-filter-le t (s ∷ subs) = ground (arith, length-filter-le t subs)

unsubscribe-IsBounded :
    (slot : ℕ) (doc : Text) (p : Peer) → IsBounded p → IsBounded (unsubscribe slot doc p)
unfolding unsubscribe
unsubscribe-IsBounded slot doc p h =
    omega (arith, length-filter-le (λ s. not (is_sub slot doc s)) p.subs)

subscribe-IsBounded :
    (slot : ℕ) (doc : Text) (p : Peer)
    → length p.subs < max_doc_subs
    → IsBounded (subscribe slot doc p)
unfolding subscribe
subscribe-IsBounded slot doc p h =
    omega (arith, length-append p.subs (record { slot = slot; doc = doc } ∷ []))

module _ (x : FrameContext) (slot : ℕ) (doc : Text) where
  unless_moved-IsBounded :
      (s : Store) (rest : Store → Outcome)
      → All IsBounded x.peers
      → ((t : Store) → All IsBounded (rest t).peers)
      → All IsBounded (Documents.unless_moved x slot doc s rest).peers
  unfolding Documents.unless_moved
  unless_moved-IsBounded s rest h k = ground (arith, k (Store.moved_to x.grant.channel doc s).1)

  live-peers :
      (body : ClientBody) (drawn : Text) (s : Store)
      → (Documents.live x slot doc body drawn s).peers ≡ x.peers
  unfolding Documents.live Documents.write Documents.seed Documents.rotate
  live-peers (ClientBody.awareness payload) drawn s = refl
  live-peers body drawn s = ground arith

  follow-IsBounded :
      (since : ℕ) (s : Store)
      → All IsBounded x.peers
      → All IsBounded (Documents.follow x slot doc since s).peers
  unfolding Documents.follow
  follow-IsBounded since s h = ground (
    arith,
    subscribe-IsBounded slot doc x.peer,
    replace-IsBounded (subscribe slot doc x.peer) x.peers,
  )

  followed-IsBounded :
      (body : ClientBody) (drawn : Text) (s : Store)
      → IsBounded x.peer
      → All IsBounded x.peers
      → All IsBounded (Documents.followed x slot doc body drawn s).peers
  unfolding Documents.followed
  followed-IsBounded ClientBody.unsub drawn s b h =
      replace-IsBounded (unsubscribe slot doc x.peer) x.peers
        (unsubscribe-IsBounded slot doc x.peer b) h
  followed-IsBounded body drawn s b h =
      unless_moved-IsBounded s (Documents.live x slot doc body drawn) h
        (λ t. rw (live-peers body drawn t) h)

  subscribe_to-IsBounded :
      (since : ℕ) (s : Store)
      → All IsBounded x.peers
      → All IsBounded (Documents.subscribe_to x slot doc since s).peers
  unfolding Documents.subscribe_to
  subscribe_to-IsBounded since s h = ground (
    arith,
    unless_moved-IsBounded s (Documents.follow x slot doc since) h
        (λ t. follow-IsBounded since t h),
  )

  followed_or_not :
      (body : ClientBody) (drawn : Text) (s : Store)
      → IsBounded x.peer
      → All IsBounded x.peers
      → All IsBounded
          (if follows x.peer slot doc
            then Documents.followed x slot doc body drawn s
            else record { peers = x.peers; store = s; effects = [] }).peers
  followed_or_not body drawn s b h = ground (arith, followed-IsBounded body drawn s b h)

  documents-IsBounded :
      (body : ClientBody) (drawn : Text) (s : Store)
      → IsBounded x.peer
      → All IsBounded x.peers
      → All IsBounded (Documents.handle x slot doc body drawn s).peers
  unfolding Documents.handle
  documents-IsBounded (ClientBody.sub since) drawn s b h = subscribe_to-IsBounded since s h
  documents-IsBounded body drawn s b h = followed_or_not body drawn s b h

admit-IsBounded :
    (hub : Hub) (peer : Peer) (g : Option Grant) (frame : ClientFrame) (size now : ℕ) (drawn : Text)
    → IsBounded peer
    → All IsBounded hub.peers
    → All IsBounded (Core.admit hub peer g frame size now drawn).0.peers
unfolding Core.admit Core.dispatch
admit-IsBounded hub peer none frame size now drawn b h = h
admit-IsBounded hub peer (some grant) frame size now drawn b h =
    let x : FrameContext = record { peers = hub.peers; peer = peer; grant = grant } in
    ground (arith, documents-IsBounded x frame.slot frame.doc frame.body drawn hub.store b h)

-- When no socket follows more documents than the limit, none does after any bytes of a socket.
pub handle-IsBounded :
    (c : TextCoding) (hub : Hub) (peer : Peer) (bytes : Bytes) (now : ℕ) (drawn : Text)
    → IsBounded peer
    → All IsBounded hub.peers
    → All IsBounded (Core.handle c hub peer bytes now drawn).0.peers
unfolding Core.handle
handle-IsBounded c hub peer bytes now drawn b h = elim (Option-cases (decode_client c bytes)) [
  | inl e ↦ rw (e, Core.handle) h
  | inr (frame, e) ↦
      rw (e, Core.handle)
        (admit-IsBounded hub peer (grant_at peer.slots frame.slot) frame (length bytes) now drawn b
          h)
]
