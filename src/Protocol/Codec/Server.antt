-- ===== src/Protocol/Codec/Server.antt =====
-- Server frames: what is encoded is decoded again, on the slot that it was readdressed to.
use obsync.Base.{
  ℕ, ◌<◌, ◌≡◌, ◌≢◌, refl, ap, subst, Option, none, some, List, [], ◌∷◌, ◌++◌, append-nil,
  append_assoc, arith, Text, Bytes, length, All,
}
use obsync.Protocol.Bytes.{TextCoding, ◌>>=◌, be32, read_text, more}
use obsync.Protocol.Bytes.Laws.{
  FitsText, text_bytes, read_u8-u8, read_u32-be32, read_rest_lem, read_block-block,
  read_text-text_bytes,
}
use obsync.Protocol.Frames.{
  Vouched, ClientBody, ClientFrame, ServerBody, ServerFrame, server_type, client_type,
}
use obsync.Protocol.Codec.{
  or_empty, null_if_empty, read_blocks, read_log, read_state, read_vouched, read_server,
  encode_server, decode_server, with_slot, encode_client,
}
use obsync.Protocol.Codec.Written.{
  FitsServer, FitsVouched, FitsClient, vouched_bytes, server_bytes, header_bytes, encode_server_lem,
  encode_client_lem, client_bytes,
}
use obsync.Protocol.Codec.Extends.{block_bytes, blocks_bytes}
use obsync.Protocol.Codec.Client.{read_header-header_bytes}

-- An empty snapshot is sent as no snapshot.
abbrev pub as_received : ServerBody → ServerBody
as_received (ServerBody.state head snapshot deltas log) =
    ServerBody.state head (null_if_empty (or_empty snapshot)) deltas log
as_received body = body

read_blocks-blocks_bytes :
    (deltas : List Bytes) (r : Bytes)
    → All (λ (d : Bytes). length d < 4294967296) deltas
    → read_blocks (length deltas) (blocks_bytes deltas ++ r) ≡ some (deltas, r)
unfolding read_blocks
read_blocks-blocks_bytes [] r h = refl
read_blocks-blocks_bytes (d ∷ deltas) r h = rw (
  append_assoc d (blocks_bytes deltas) r,
  read_block-block d (blocks_bytes deltas ++ r) h.0,
  read_blocks-blocks_bytes deltas r h.1,
)

module _ (c : TextCoding) where
  read_text_last : (s : Text) → FitsText c s → read_text c (text_bytes c s) ≡ some (s, [])
  read_text_last s h =
      subst (λ b. read_text c b ≡ some (s, [])) (append-nil (text_bytes c s))
        (read_text-text_bytes c s [] h)

  read_vouched-vouched_bytes :
      (f : Vouched) → FitsVouched c f → read_vouched c (vouched_bytes c f) ≡ some (f, [])
  unfolding read_vouched
  read_vouched-vouched_bytes f h = rw (
    read_u32-be32 f.from (text_bytes c f.who ++ text_bytes c f.name) h.0,
    read_text-text_bytes c f.who (text_bytes c f.name) h.1,
    read_text_last f.name h.2,
  )

  read_log-text_bytes : (s : Text) → FitsText c s → read_log c (text_bytes c s) ≡ some s
  unfolding read_log text_bytes more
  read_log-text_bytes s h = ap (λ m. m >>= λ x. some x.0) (read_text_last s h)

  read_state-server_bytes :
      (head : ℕ) (snapshot : Option Bytes) (deltas : List Bytes) (log : Text)
      → FitsServer c (ServerBody.state head snapshot deltas log)
      → read_state c (server_bytes c (ServerBody.state head snapshot deltas log))
        ≡ some (as_received (ServerBody.state head snapshot deltas log))
  unfolding read_state
  read_state-server_bytes head snapshot deltas log h =
      let snap = or_empty snapshot in
      let size = be32 (length deltas) in
      let blocks = blocks_bytes deltas in
      let name = text_bytes c log in
      rw (
        append_assoc (snap ++ size) blocks name,
        append_assoc snap size (blocks ++ name),
        read_u32-be32 head (block_bytes snap ++ (size ++ (blocks ++ name))) h.0,
        read_block-block snap (size ++ (blocks ++ name)) h.1,
        read_u32-be32 (length deltas) (blocks ++ name) h.2,
        read_blocks-blocks_bytes deltas name h.3,
        read_log-text_bytes log h.4,
      )

  server_type-lt : (body : ServerBody) → server_type body < 256
  server_type-lt (ServerBody.state _ _ _ _) = omega arith
  server_type-lt _ = omega arith

  read_server-server_bytes :
      (body : ServerBody)
      → FitsServer c body
      → read_server c (server_type body) (server_bytes c body) ≡ some (as_received body)
  unfolding read_server
  read_server-server_bytes (ServerBody.state head snapshot deltas log) h =
      read_state-server_bytes head snapshot deltas log h
  read_server-server_bytes (ServerBody.fanout seq from payload) h = rw (
    read_u32-be32 seq (be32 from ++ payload) h.0,
    read_u32-be32 from payload h.1,
    read_rest_lem payload,
  )
  read_server-server_bytes (ServerBody.echo seq n) h =
      rw (read_u32-be32 seq (be32 n) h.0, read_u32-be32 n [] h.1)
  read_server-server_bytes (ServerBody.peer from payload) h =
      rw (read_u32-be32 from payload h, read_rest_lem payload)
  read_server-server_bytes (ServerBody.join f) h = rw (read_vouched-vouched_bytes f h)
  read_server-server_bytes (ServerBody.here f) h = rw (read_vouched-vouched_bytes f h)
  read_server-server_bytes (ServerBody.leave from) h = rw (read_u32-be32 from [] h)
  read_server-server_bytes (ServerBody.moved target note) h =
      rw (read_text-text_bytes c target note h, read_rest_lem note)
  read_server-server_bytes ServerBody.revoked h = refl
  read_server-server_bytes (ServerBody.refused reason) h = rw (read_u8-u8 reason [] h)
  read_server-server_bytes (ServerBody.signalled from) h = rw (read_u32-be32 from [] h)

  -- A server frame whose fields fit the format is encoded, and decoding the bytes gives it back,
  -- with an empty snapshot read as none.
  pub decode_server-encode_server :
      (f : ServerFrame)
      → f.slot < 256
      → FitsText c f.doc
      → FitsServer c f.body
      → (b : Bytes) × (encode_server c f ≡ some b)
        × (decode_server c b ≡ some (record f { body = as_received f.body }))
  unfolding decode_server
  decode_server-encode_server f hs hd hb = (
    header_bytes c (server_type f.body) f.slot f.doc ++ server_bytes c f.body,
    encode_server_lem c f hd hb,
    rw (
      read_header-header_bytes c (server_type f.body) f.slot f.doc (server_bytes c f.body)
          (server_type-lt f.body) hs hd,
      read_server-server_bytes f.body hb,
    ),
  )

  -- A server frame whose document and body fit the format is encoded, and readdressing its bytes
  -- gives the bytes of the frame at the other slot.
  pub with_slot-encode_server :
      (f : ServerFrame) (slot : ℕ)
      → FitsText c f.doc
      → FitsServer c f.body
      → (b : Bytes) × (encode_server c f ≡ some b)
        × (encode_server c (record f { slot = slot }) ≡ some (with_slot b slot))
  unfolding with_slot
  with_slot-encode_server f slot hd hb = (
    header_bytes c (server_type f.body) f.slot f.doc ++ server_bytes c f.body,
    encode_server_lem c f hd hb,
    encode_server_lem c (record f { slot = slot }) hd hb,
  )

  -- The types of client frames have no server entry, but for a signal's.
  read_server-client_type :
      (body : ClientBody) (input : Bytes)
      → body ≢ ClientBody.signal
      → read_server c (client_type body) input ≡ none
  unfolding read_server
  read_server-client_type (ClientBody.sub _) input n = refl
  read_server-client_type ClientBody.signal input n = absurd (n refl)
  read_server-client_type _ input n = refl

  client_type-lt : (body : ClientBody) → client_type body < 256
  client_type-lt (ClientBody.sub _) = omega arith
  client_type-lt _ = omega arith

  -- The bytes of a client frame that fits, other than a signal, are no server frame.
  pub decode_server-encode_client :
      (f : ClientFrame)
      → f.slot < 256
      → FitsText c f.doc
      → FitsClient c f.body
      → f.body ≢ ClientBody.signal
      → (b : Bytes) × (encode_client c f ≡ some b) × (decode_server c b ≡ none)
  unfolding decode_server
  decode_server-encode_client f hs hd hb n = (
    header_bytes c (client_type f.body) f.slot f.doc ++ client_bytes c f.body,
    encode_client_lem c f hd hb,
    rw (
      read_header-header_bytes c (client_type f.body) f.slot f.doc (client_bytes c f.body)
          (client_type-lt f.body) hs hd,
      read_server-client_type f.body (client_bytes c f.body) n,
    ),
  )
