-- ===== src/Protocol/Codec.antt =====
-- packages/protocol/src/codec.ts: a writer and a reader for each frame type, the header they share,
-- and the readdressing of an encoded frame. `none` is `null`, or a thrown error.
pub mod Extends
pub mod Written
pub mod Client
pub mod Server
use obsync.Base.{
  ℕ, zero, suc, ◌%◌, Bool, Option, none, some, List, [], ◌∷◌, Text, Bytes, length, set, ◌==◌, ltb,
  if◌then◌else◌,
}
use obsync.Protocol.Bytes.{
  TextCoding, ◌>>=◌, Writer, Reader, new_writer, bytes, u8, u32, block, finish, read_u8, read_u32,
  read_block, read_rest, more, text, read_text,
}
use obsync.Protocol.EFrame
use obsync.Protocol.Frames.{
  Vouched, ClientBody, ClientFrame, ServerBody, ServerFrame, client_type, server_type,
}

-- `out[1] = slot` in a copy of the frame.
unfoldable pub with_slot : Bytes → ℕ → Bytes
with_slot b slot = set b 1 (slot % 256)

-- `f.snapshot ?? new Uint8Array()`.
abbrev pub or_empty : Option Bytes → Bytes
or_empty none = []
or_empty (some b) = b

-- `snapshot.length > 0 ? snapshot : null`.
abbrev pub null_if_empty : Bytes → Option Bytes
null_if_empty [] = none
null_if_empty (b ∷ r) = some (b ∷ r)

unfoldable pub write_blocks : List Bytes → Writer → Writer
write_blocks [] out = out
write_blocks (delta ∷ deltas) out = write_blocks deltas (block delta out)

-- `for (let left = input.u32(); left > 0; left--) deltas.push(input.block())`.
unfoldable pub read_blocks : ℕ → Reader (List Bytes)
read_blocks zero input = some ([], input)
read_blocks (suc left) input = do
  (delta, rest) ← read_block input
  (deltas, rest') ← read_blocks left rest
  some (delta ∷ deltas, rest')

module _ (c : TextCoding) where
  unfoldable pub write_vouched : Vouched → Writer → Option Writer
  write_vouched f out = text c f.who (u32 f.from out) >>= text c f.name

  unfoldable pub read_vouched : Reader Vouched
  read_vouched input = do
    (from, rest) ← read_u32 input
    (who, rest') ← read_text c rest
    (name, rest'') ← read_text c rest'
    some (record { from = from; who = who; name = name }, rest'')

  unfoldable pub write_client : ClientBody → Writer → Option Writer
  write_client (ClientBody.sub since) out = some (u32 since out)
  write_client ClientBody.unsub out = some out
  write_client (ClientBody.update n payload) out = some (bytes payload (u32 n out))
  write_client (ClientBody.awareness payload) out = some (bytes payload out)
  write_client (ClientBody.snapshot upto payload) out = some (bytes payload (u32 upto out))
  write_client (ClientBody.rotate target upto note payload) out = do
    w ← text c target out
    some (bytes payload (block note (u32 upto w)))
  write_client ClientBody.signal out = some out
  write_client (ClientBody.seed n payload) out = some (bytes payload (u32 n out))

  unfoldable pub write_server : ServerBody → Writer → Option Writer
  write_server (ServerBody.state head snapshot deltas log) out =
      text c log
        (write_blocks deltas (u32 (length deltas) (block (or_empty snapshot) (u32 head out))))
  write_server (ServerBody.fanout seq from payload) out =
      some (bytes payload (u32 from (u32 seq out)))
  write_server (ServerBody.echo seq n) out = some (u32 n (u32 seq out))
  write_server (ServerBody.peer from payload) out = some (bytes payload (u32 from out))
  write_server (ServerBody.join f) out = write_vouched f out
  write_server (ServerBody.here f) out = write_vouched f out
  write_server (ServerBody.leave from) out = some (u32 from out)
  write_server (ServerBody.moved target note) out = do w ← text c target out; some (bytes note w)
  write_server ServerBody.revoked out = some out
  write_server (ServerBody.refused reason) out = some (u8 reason out)
  write_server (ServerBody.signalled from) out = some (u32 from out)

  -- The entries of `CLIENT`; a type with no entry is `undefined` there.
  unfoldable pub read_client : ℕ → Bytes → Option ClientBody
  read_client type input =
      if type == EFrame.sub
      then (do (since, _) ← read_u32 input; some (ClientBody.sub since))
      else if type == EFrame.unsub
      then some ClientBody.unsub
      else if type == EFrame.update
      then (do
        (n, rest) ← read_u32 input
        (payload, _) ← read_rest rest
        some (ClientBody.update n payload))
      else if type == EFrame.awareness
      then (do (payload, _) ← read_rest input; some (ClientBody.awareness payload))
      else if type == EFrame.snapshot
      then (do
        (upto, rest) ← read_u32 input
        (payload, _) ← read_rest rest
        some (ClientBody.snapshot upto payload))
      else if type == EFrame.rotate
      then (do
        (target, rest) ← read_text c input
        (upto, rest') ← read_u32 rest
        (note, rest'') ← read_block rest'
        (payload, _) ← read_rest rest''
        some (ClientBody.rotate target upto note payload))
      else if type == EFrame.signal
      then some ClientBody.signal
      else if type == EFrame.seed
      then (do
        (n, rest) ← read_u32 input
        (payload, _) ← read_rest rest
        some (ClientBody.seed n payload))
      else none

  -- `input.more() ? input.text() : ""`.
  unfoldable pub read_log : Bytes → Option Text
  read_log input = if more input then (do (log, _) ← read_text c input; some log) else some []

  unfoldable pub read_state : Bytes → Option ServerBody
  read_state input = do
    (head, rest) ← read_u32 input
    (snapshot, rest') ← read_block rest
    (left, rest'') ← read_u32 rest'
    (deltas, rest''') ← read_blocks left rest''
    log ← read_log rest'''
    some (ServerBody.state head (null_if_empty snapshot) deltas log)

  -- The entries of `SERVER`.
  unfoldable pub read_server : ℕ → Bytes → Option ServerBody
  read_server type input =
      if type == EFrame.state
      then read_state input
      else if type == EFrame.fanout
      then (do
        (seq, rest) ← read_u32 input
        (from, rest') ← read_u32 rest
        (payload, _) ← read_rest rest'
        some (ServerBody.fanout seq from payload))
      else if type == EFrame.echo
      then (do (seq, rest) ← read_u32 input; (n, _) ← read_u32 rest; some (ServerBody.echo seq n))
      else if type == EFrame.peer
      then (do
        (from, rest) ← read_u32 input
        (payload, _) ← read_rest rest
        some (ServerBody.peer from payload))
      else if type == EFrame.join
      then (do (f, _) ← read_vouched input; some (ServerBody.join f))
      else if type == EFrame.here
      then (do (f, _) ← read_vouched input; some (ServerBody.here f))
      else if type == EFrame.leave
      then (do (from, _) ← read_u32 input; some (ServerBody.leave from))
      else if type == EFrame.moved
      then (do
        (target, rest) ← read_text c input
        (note, _) ← read_rest rest
        some (ServerBody.moved target note))
      else if type == EFrame.revoked
      then some ServerBody.revoked
      else if type == EFrame.refused
      then (do (reason, _) ← read_u8 input; some (ServerBody.refused reason))
      else if type == EFrame.signal
      then (do (from, _) ← read_u32 input; some (ServerBody.signalled from))
      else none

  -- The part of `encode` that all frames share.
  unfoldable pub write_header : ℕ → ℕ → Text → Option Writer
  write_header type slot doc = text c doc (u8 slot (u8 type new_writer))

  unfoldable pub read_header : Reader (ℕ × ℕ × Text)
  read_header b = do
    (type, rest) ← read_u8 b
    (slot, rest') ← read_u8 rest
    (doc, rest'') ← read_text c rest'
    some ((type, slot, doc), rest'')

  unfoldable pub encode_client : ClientFrame → Option Bytes
  encode_client f = do
    out ← write_header (client_type f.body) f.slot f.doc
    out' ← write_client f.body out
    some (finish out')

  unfoldable pub encode_server : ServerFrame → Option Bytes
  encode_server f = do
    out ← write_header (server_type f.body) f.slot f.doc
    out' ← write_server f.body out
    some (finish out')

  unfoldable pub decode_client : Bytes → Option ClientFrame
  decode_client b = do
    (h, rest) ← read_header b
    body ← read_client h.0 rest
    some (record { slot = h.1; doc = h.2; body = body })

  unfoldable pub decode_server : Bytes → Option ServerFrame
  decode_server b = do
    (h, rest) ← read_header b
    body ← read_server h.0 rest
    some (record { slot = h.1; doc = h.2; body = body })
