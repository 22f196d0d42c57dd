-- ===== src/Protocol/Codec/Client.antt =====
-- Client frames: what is encoded is decoded again.
use obsync.Base.{ℕ, ◌%◌, ◌<◌, ◌≡◌, refl, some, [], ◌∷◌, ◌++◌, arith, Text, Bytes}
use obsync.Protocol.Bytes.{TextCoding, be32}
use obsync.Protocol.Bytes.Laws.{
  FitsText, text_bytes, read_u8-u8, read_u32-be32, read_rest_lem, read_block-block,
  read_text-text_bytes,
}
use obsync.Protocol.Frames.{ClientBody, ClientFrame, client_type}
use obsync.Protocol.Codec.{read_header, read_client, encode_client, decode_client}
use obsync.Protocol.Codec.Written.{FitsClient, client_bytes, header_bytes, encode_client_lem}
use obsync.Protocol.Codec.Extends.{block_bytes}

module _ (c : TextCoding) where
  pub read_header-header_bytes :
      (type slot : ℕ) (doc : Text) (rest : Bytes)
      → type < 256
      → slot < 256
      → FitsText c doc
      → read_header c (header_bytes c type slot doc ++ rest) ≡ some ((type, slot, doc), rest)
  unfolding read_header
  read_header-header_bytes type slot doc rest ht hs hd = rw (
    read_u8-u8 type (slot % 256 ∷ (text_bytes c doc ++ rest)) ht,
    read_u8-u8 slot (text_bytes c doc ++ rest) hs,
    read_text-text_bytes c doc rest hd,
  )

  client_type-lt : (body : ClientBody) → client_type body < 256
  client_type-lt (ClientBody.sub _) = omega arith
  client_type-lt _ = omega arith

  read_client-client_bytes :
      (body : ClientBody)
      → FitsClient c body
      → read_client c (client_type body) (client_bytes c body) ≡ some body
  unfolding read_client
  read_client-client_bytes (ClientBody.sub since) h = rw (read_u32-be32 since [] h)
  read_client-client_bytes ClientBody.unsub h = refl
  read_client-client_bytes (ClientBody.update n payload) h =
      rw (read_u32-be32 n payload h, read_rest_lem payload)
  read_client-client_bytes (ClientBody.awareness payload) h = rw (read_rest_lem payload)
  read_client-client_bytes (ClientBody.snapshot upto payload) h =
      rw (read_u32-be32 upto payload h, read_rest_lem payload)
  read_client-client_bytes (ClientBody.rotate target upto note payload) h = rw (
    read_text-text_bytes c target (be32 upto ++ (block_bytes note ++ payload)) h.0,
    read_u32-be32 upto (block_bytes note ++ payload) h.1,
    read_block-block note payload h.2,
    read_rest_lem payload,
  )
  read_client-client_bytes ClientBody.signal h = refl
  read_client-client_bytes (ClientBody.seed n payload) h =
      rw (read_u32-be32 n payload h, read_rest_lem payload)

  -- A client frame whose fields fit the format is encoded, and decoding the bytes gives it back.
  pub decode_client-encode_client :
      (f : ClientFrame)
      → f.slot < 256
      → FitsText c f.doc
      → FitsClient c f.body
      → (b : Bytes) × (encode_client c f ≡ some b) × (decode_client c b ≡ some f)
  unfolding decode_client
  decode_client-encode_client f hs hd hb = (
    header_bytes c (client_type f.body) f.slot f.doc ++ client_bytes c f.body,
    encode_client_lem c f hd hb,
    rw (
      read_header-header_bytes (client_type f.body) f.slot f.doc (client_bytes c f.body)
          (client_type-lt f.body) hs hd,
      read_client-client_bytes f.body hb,
    ),
  )
