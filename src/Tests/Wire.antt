-- ===== src/Tests/Wire.antt =====
-- The codec at concrete frames.
use obsync.Base.{◌≡◌, ◌≢◌, refl, none, some, [], ◌∷◌, arith, Bytes, codes}
use obsync.Protocol.Bytes.{
  new_writer, bytes, u8, u32, zeros, blit, fill, finish, read_u8, read_u32, read_take, text,
  read_text,
}
use obsync.Protocol.Frames.{ClientBody, ClientFrame, ServerBody, ServerFrame}
use obsync.Protocol.Codec.{
  with_slot, write_header, read_header, write_client, read_client, encode_client, encode_server,
  decode_client, decode_server,
}
use obsync.Protocol.Codec.Client.{decode_client-encode_client}
use obsync.Protocol.Codec.Server.{
  as_received, decode_server-encode_server, with_slot-encode_server, decode_server-encode_client,
}
use obsync.Tests.Sample.{ascii, doc, fresh_doc}

abbrev update : ClientFrame
update = record { slot = 3; doc = doc; body = ClientBody.update 258 (7 ∷ 8 ∷ []) }

abbrev rotation : ClientFrame
rotation = record {
  slot = 0;
  doc = doc;
  body = ClientBody.rotate fresh_doc 5 (9 ∷ []) (1 ∷ 2 ∷ []);
}

abbrev state : ServerFrame
state = record {
  slot = 2;
  doc = doc;
  body = ServerBody.state 3 (some []) ((1 ∷ []) ∷ (2 ∷ 3 ∷ []) ∷ []) (codes "l1");
}

update_bytes : encode_client ascii update ≡ some (3 ∷ 3 ∷ 1 ∷ 100 ∷ 0 ∷ 0 ∷ 1 ∷ 2 ∷ 7 ∷ 8 ∷ [])
unfolding encode_client write_header write_client text new_writer bytes u8 u32 finish zeros fill
    blit
update_bytes = refl

-- Bytes that end early, name an unknown type or hold no text are no frame.
no_frames :
    (decode_client ascii (3 ∷ 3 ∷ 1 ∷ 100 ∷ 0 ∷ 0 ∷ 1 ∷ []) ≡ none)
    × (decode_client ascii (16 ∷ 3 ∷ 1 ∷ 100 ∷ []) ≡ none)
    × (decode_client ascii (7 ∷ 3 ∷ 1 ∷ 200 ∷ []) ≡ none)
unfolding decode_client read_header read_client read_text read_u8 read_u32 read_take
no_frames = (refl, refl, refl)

decode_client-encode_client_example :
    (b : Bytes) × (encode_client ascii rotation ≡ some b) × (decode_client ascii b ≡ some rotation)
decode_client-encode_client_example =
    decode_client-encode_client ascii rotation (omega arith) (refl, omega arith)
      ((refl, omega arith), omega arith, omega arith)

decode_server-encode_server_example :
    (b : Bytes) × (encode_server ascii state ≡ some b)
    × (decode_server ascii b ≡ some (record state { body = as_received state.body }))
decode_server-encode_server_example =
    decode_server-encode_server ascii state (omega arith) (refl, omega arith)
      (omega arith, omega arith, omega arith, (omega arith, (omega arith, tt)), (refl, omega arith))

with_slot-encode_server_example :
    (b : Bytes) × (encode_server ascii state ≡ some b)
    × (encode_server ascii (record state { slot = 260 }) ≡ some (with_slot b 260))
with_slot-encode_server_example =
    with_slot-encode_server ascii state 260 (refl, omega arith)
      (omega arith, omega arith, omega arith, (omega arith, (omega arith, tt)), (refl, omega arith))

not_signal : update.body ≢ ClientBody.signal
not_signal e = cc

decode_server-encode_client_example :
    (b : Bytes) × (encode_client ascii update ≡ some b) × (decode_server ascii b ≡ none)
decode_server-encode_client_example =
    decode_server-encode_client ascii update (omega arith) (refl, omega arith) (omega arith)
      not_signal
