-- ===== src/Protocol/Frames.antt =====
-- packages/protocol/src/frames.ts: the frames and the limits on them.
use obsync.Base.{ℕ, ◌*◌, Option, List, [], Text, Bytes}
use obsync.Protocol.EFrame

-- `ERefusal`.
abbrev pub too_large : ℕ
too_large = 1

abbrev pub too_many_docs : ℕ
too_many_docs = 2

abbrev pub read_only : ℕ
read_only = 3

-- Addresses the channel itself.
abbrev pub channel_doc : Text
channel_doc = []

abbrev pub max_slots : ℕ
max_slots = 32

abbrev pub max_frame_bytes : ℕ
max_frame_bytes = 1024 * 1024

abbrev pub max_doc_subs : ℕ
max_doc_subs = 64

abbrev pub max_doc_id_length : ℕ
max_doc_id_length = 64

abbrev pub max_move_note_bytes : ℕ
max_move_note_bytes = 4 * 1024

pub record Vouched : Type 0 where
  pub from : ℕ
  pub who : Text
  pub name : Text

-- What a client frame holds beside its address.
pub data ClientBody : Type 0 where
  sub : ℕ → ClientBody
  unsub : ClientBody
  update : ℕ → Bytes → ClientBody
  awareness : Bytes → ClientBody
  snapshot : ℕ → Bytes → ClientBody
  rotate : Text → ℕ → Bytes → Bytes → ClientBody
  signal : ClientBody
  seed : ℕ → Bytes → ClientBody

pub record ClientFrame : Type 0 where
  pub slot : ℕ
  pub doc : Text
  pub body : ClientBody

-- What a server frame holds beside its address. A `state` has its head, snapshot, deltas and log.
pub data ServerBody : Type 0 where
  state : ℕ → Option Bytes → List Bytes → Text → ServerBody
  fanout : ℕ → ℕ → Bytes → ServerBody
  echo : ℕ → ℕ → ServerBody
  peer : ℕ → Bytes → ServerBody
  join : Vouched → ServerBody
  here : Vouched → ServerBody
  leave : ℕ → ServerBody
  moved : Text → Bytes → ServerBody
  revoked : ServerBody
  refused : ℕ → ServerBody
  signalled : ℕ → ServerBody

pub record ServerFrame : Type 0 where
  pub slot : ℕ
  pub doc : Text
  pub body : ServerBody

-- `frame.type`.
abbrev pub client_type : ClientBody → ℕ
client_type (sub _) = EFrame.sub
client_type unsub = EFrame.unsub
client_type (update _ _) = EFrame.update
client_type (awareness _) = EFrame.awareness
client_type (snapshot _ _) = EFrame.snapshot
client_type (rotate _ _ _ _) = EFrame.rotate
client_type signal = EFrame.signal
client_type (seed _ _) = EFrame.seed

abbrev pub server_type : ServerBody → ℕ
server_type (state _ _ _ _) = EFrame.state
server_type (fanout _ _ _) = EFrame.fanout
server_type (echo _ _) = EFrame.echo
server_type (peer _ _) = EFrame.peer
server_type (join _) = EFrame.join
server_type (here _) = EFrame.here
server_type (leave _) = EFrame.leave
server_type (moved _ _) = EFrame.moved
server_type revoked = EFrame.revoked
server_type (refused _) = EFrame.refused
server_type (signalled _) = EFrame.signal
