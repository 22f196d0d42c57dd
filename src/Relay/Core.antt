-- ===== src/Relay/Core.antt =====
-- packages/relay/src/hub/core.ts. The hub's state is the open sockets, the documents and the
-- limits; each method returns the state after it and what the sockets are told, in order. The
-- clock and the name of a new log are arguments.
pub mod Revocation
pub mod Guards
use obsync.Base.{
  ℕ, zero, suc, ◌+◌, Bool, true, false, not, ◌&&◌, ◌||◌, Option, none, some, List, [], ◌∷◌, ◌++◌,
  Text, Bytes, same, length, ltb, leb, ◌==◌, if◌then◌else◌, all,
}
use obsync.Protocol.Bytes.{TextCoding}
use obsync.Protocol.Codec.{decode_client}
use obsync.Protocol.Frames.{
  ClientBody, ClientFrame, ServerBody, channel_doc, too_large, max_frame_bytes,
}
use obsync.Relay.Limits.{FrameLimits, allows, forget}
use obsync.Relay.Peer.{Grant, Peer, Effect, grant_on, revoke, replace}
use obsync.Relay.Delivery.{
  leave_frame, peer_frame, signal_frame, vouched_frame, send, refuse, broadcast, to_channel,
}
use obsync.Relay.Documents
use obsync.Relay.Documents.{FrameContext, Outcome, grant_at, leave_docs}
use obsync.Relay.Store
use obsync.Relay.Store.{Store, is_null}

abbrev pub relay_tag : ℕ
relay_tag = 0

abbrev pub unauthorized_close_code : ℕ
unauthorized_close_code = 4001

pub record Hub : Type 0 where
  pub peers : List Peer
  pub store : Store
  pub limits : FrameLimits

-- Who is there already, as a newcomer is told.
unfoldable pub here_frames : List Peer → Peer → ℕ → Text → List Effect
here_frames [] peer slot channel = []
here_frames (other ∷ peers) peer slot channel =
    (elim (if other.tag == peer.tag then none else grant_on other channel) [
      | none ↦ []
      | some theirs ↦ send peer slot channel_doc (ServerBody.here (vouched_frame other.tag theirs))
    ])
    ++ here_frames peers peer slot channel

unfoldable pub join_from : List Peer → Peer → ℕ → List (Option Grant) → List Effect
join_from peers peer slot [] = []
join_from peers peer slot (none ∷ slots) =
    send peer slot channel_doc ServerBody.revoked ++ join_from peers peer (suc slot) slots
join_from peers peer slot (some grant ∷ slots) =
    (here_frames peers peer slot grant.channel
      ++ to_channel peers grant.channel (ServerBody.join (vouched_frame peer.tag grant)) peer.tag)
    ++ join_from peers peer (suc slot) slots

unfoldable pub join : Hub → Peer → List Effect
unfolding join_from here_frames
join hub peer = join_from hub.peers peer 0 peer.slots

unfoldable pub handle_channel : FrameContext → ClientBody → List Effect
handle_channel x ClientBody.signal =
    to_channel x.peers x.grant.channel (signal_frame x.peer.tag) x.peer.tag
handle_channel x (ClientBody.awareness payload) =
    to_channel x.peers x.grant.channel (peer_frame x.peer.tag payload) x.peer.tag
handle_channel x body = []

-- A frame of a grant, within the limits: `size` is that of its bytes.
unfoldable pub dispatch : Hub → Peer → Grant → ClientFrame → ℕ → Text → Hub × List Effect
dispatch hub peer grant frame size drawn =
    let x : FrameContext = record { peers = hub.peers; peer = peer; grant = grant } in
    if ltb max_frame_bytes size
    then (
      hub,
      if same frame.doc channel_doc then [] else refuse peer frame.slot frame.doc too_large,
    )
    else if same frame.doc channel_doc
    then (hub, handle_channel x frame.body)
    else (let o = Documents.handle x frame.slot frame.doc frame.body drawn hub.store in
        (record hub { peers = o.peers; store = o.store }, o.effects))

unfoldable pub admit : Hub → Peer → Option Grant → ClientFrame → ℕ → ℕ → Text → Hub × List Effect
unfolding dispatch
admit hub peer none frame size now drawn = (hub, [])
admit hub peer (some grant) frame size now drawn =
    let (ok, limits) = allows hub.limits peer.tag frame.body grant.read_only size now in
    let counted = record hub { limits = limits } in
    if ok then dispatch counted peer grant frame size drawn else (counted, [])

unfoldable pub handle : TextCoding → Hub → Peer → Bytes → ℕ → Text → Hub × List Effect
unfolding admit
handle c hub peer bytes now drawn = elim (decode_client c bytes) [
  | none ↦ (hub, [])
  | some frame ↦ admit hub peer (grant_at peer.slots frame.slot) frame (length bytes) now drawn
]

unfoldable pub leave_channels : List Peer → Peer → List (Option Grant) → List Effect
leave_channels peers peer [] = []
leave_channels peers peer (none ∷ slots) = leave_channels peers peer slots
leave_channels peers peer (some grant ∷ slots) =
    to_channel peers grant.channel (leave_frame peer.tag) peer.tag
    ++ leave_channels peers peer slots

unfoldable pub leave : Hub → Peer → Hub × List Effect
unfolding leave_channels
leave hub peer = (
  record hub { limits = forget hub.limits peer.tag },
  leave_docs hub.peers peer none ++ leave_channels hub.peers peer peer.slots,
)

unfoldable pub signal : Hub → Text → Text → List Effect
signal hub channel except_device =
    broadcast hub.peers channel channel_doc (signal_frame relay_tag)
      (λ peer slot. length except_device == 0 || not (same peer.device except_device))

-- The slots of one socket, from an index on; the Boolean is `dropped`.
unfoldable pub drop_slots :
    (Grant → Bool)
    → List (Option Grant)
    → ℕ
    → Peer
    → List Peer
    → record { peer : Peer; peers : List Peer; effects : List Effect; dropped : Bool }
drop_slots matches [] slot peer peers = record {
  peer = peer;
  peers = peers;
  effects = [];
  dropped = false;
}
drop_slots matches (none ∷ slots) slot peer peers = drop_slots matches slots (suc slot) peer peers
drop_slots matches (some grant ∷ slots) slot peer peers = elim (matches grant) [
  | false ↦ drop_slots matches slots (suc slot) peer peers
  | true ↦
      let cut = revoke slot peer in
      let left = replace cut peers in
      let rest = drop_slots matches slots (suc slot) cut left in
      record rest {
        effects =
            (leave_docs peers peer (some slot)
              ++ (send cut slot channel_doc ServerBody.revoked
                  ++ to_channel left grant.channel (leave_frame peer.tag) peer.tag))
            ++ rest.effects;
        dropped = true;
      }
]

unfoldable pub drop_peers : (Grant → Bool) → List Peer → List Peer → List Peer × List Effect
unfolding drop_slots
drop_peers matches [] peers = (peers, [])
drop_peers matches (peer ∷ todo) peers =
    let cut = drop_slots matches peer.slots 0 peer peers in
    let closing =
      if cut.dropped && all is_null cut.peer.slots
      then Effect.closed peer.tag unauthorized_close_code ∷ []
      else [] in
    let (left, effects) = drop_peers matches todo cut.peers in
    (left, (cut.effects ++ closing) ++ effects)

unfoldable pub drop : (Grant → Bool) → Hub → Hub × List Effect
unfolding drop_peers
drop matches hub =
    let (peers, effects) = drop_peers matches hub.peers hub.peers in
    (record hub { peers = peers }, effects)

unfoldable pub drop_grant : Text → Hub → Hub × List Effect
unfolding drop
drop_grant fingerprint hub = drop (λ g. same g.grant fingerprint) hub

unfoldable pub close_channel : Text → Hub → Hub × List Effect
unfolding drop
close_channel channel hub =
    let (cut, effects) = drop (λ g. same g.channel channel) hub in
    (record cut { store = Store.purge channel cut.store }, effects)
