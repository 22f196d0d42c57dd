-- ===== src/Relay/Delivery.antt =====
-- packages/relay/src/hub/frames.ts: the frames that the hub builds and to whom they go. A frame is
-- kept as it is before `encodeServer`; readdressing its bytes is readdressing the frame.
use obsync.Base.{
  ℕ, Bool, not, ◌&&◌, Option, none, some, List, [], ◌∷◌, ◌++◌, Text, Bytes, ◌==◌, if◌then◌else◌,
}
use obsync.Protocol.Frames.{Vouched, ServerBody, channel_doc}
use obsync.Relay.Peer.{Grant, Peer, Effect, slot_of, follows}
use obsync.Relay.Store.{Pointer}

abbrev pub signal_frame : ℕ → ServerBody
signal_frame from = ServerBody.signalled from

abbrev pub leave_frame : ℕ → ServerBody
leave_frame from = ServerBody.leave from

abbrev pub peer_frame : ℕ → Bytes → ServerBody
peer_frame from payload = ServerBody.peer from payload

abbrev pub moved_frame : Pointer → ServerBody
moved_frame p = ServerBody.moved p.target p.note

abbrev pub or_no_name : Option Text → Text
or_no_name none = []
or_no_name (some s) = s

-- What a `Join` and a `Here` say of a socket.
abbrev pub vouched_frame : ℕ → Grant → Vouched
vouched_frame from grant = record { from = from; who = grant.who; name = or_no_name grant.name }

unfoldable pub send : Peer → ℕ → Text → ServerBody → List Effect
send peer slot doc body = Effect.sent peer.tag (record { slot = slot; doc = doc; body = body }) ∷ []

unfoldable pub refuse : Peer → ℕ → Text → ℕ → List Effect
unfolding send
refuse peer slot doc reason = send peer slot doc (ServerBody.refused reason)

-- What one socket gets of a broadcast.
unfoldable pub offer : Peer → Option ℕ → Text → ServerBody → (ℕ → Bool) → List Effect
unfolding send
offer peer none doc body accept = []
offer peer (some slot) doc body accept = if accept slot then send peer slot doc body else []

unfoldable pub broadcast : List Peer → Text → Text → ServerBody → (Peer → ℕ → Bool) → List Effect
unfolding offer
broadcast [] channel doc body accept = []
broadcast (peer ∷ peers) channel doc body accept =
    offer peer (slot_of peer channel) doc body (accept peer)
    ++ broadcast peers channel doc body accept

unfoldable pub to_channel : List Peer → Text → ServerBody → ℕ → List Effect
to_channel peers channel body except =
    broadcast peers channel channel_doc body (λ peer slot. not (peer.tag == except))

unfoldable pub to_followers : List Peer → Text → Text → ServerBody → ℕ → List Effect
to_followers peers channel doc body except =
    broadcast peers channel doc body
      (λ peer slot. not (peer.tag == except) && follows peer slot doc)
