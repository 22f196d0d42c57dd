-- ===== src/Protocol/Codec/Written.antt =====
-- The bytes of an encoded frame, without the writer.
use obsync.Base.{ℕ, ◌%◌, ◌<◌, ◌≡◌, refl, Option, some, [], ◌∷◌, ◌++◌, Text, Bytes, length, All}
use obsync.Protocol.Bytes.{
  TextCoding, ◌>>=◌, be32, Writer, new_writer, bytes, u8, u32, block, finish, text,
}
use obsync.Protocol.Bytes.Laws.{
  written, IsExact, FitsText, text_bytes, text-some, finish-IsExact, new_writer-IsExact, join,
}
use obsync.Protocol.Frames.{
  Vouched, ClientBody, ClientFrame, ServerBody, ServerFrame, client_type, server_type,
}
use obsync.Protocol.Codec.{
  or_empty, write_blocks, write_vouched, write_client, write_server, write_header, encode_client,
  encode_server,
}
use obsync.Protocol.Codec.Extends.{
  Extends, Writes, Extends-nothing, Extends-then, Extends-bytes, Extends-u8, Extends-u32,
  block_bytes, Extends-block, blocks_bytes, Extends-blocks,
}

module _ (c : TextCoding) where
  Writes-text :
      (s : Text) (w : Writer) → FitsText c s → IsExact w → Writes w (text_bytes c s) (text c s w)
  unfolding text_bytes
  Writes-text s w h e =
      let size = length (c.encode s) in
      let first = Extends-u8 size w e in
      (
        bytes (c.encode s) (u8 size w),
        text-some c s w h.1,
        Extends-then w (u8 size w) _ (size % 256 ∷ []) (c.encode s) first
            (Extends-bytes (c.encode s) _ first.1),
      )

  Writes-then :
      (w : Writer) (a b : Bytes) (m : Option Writer) (f : Writer → Option Writer)
      → Writes w a m
      → ((v : Writer) → IsExact v → Writes v b (f v))
      → Writes w (a ++ b) (m >>= f)
  Writes-then w a b m f (v, p, x) rest =
      let next = rest v x.1 in (next.0, rw p next.1, Extends-then w v next.0 a b x next.2)

  Writes-pure : (w v : Writer) (b : Bytes) → Extends w b v → Writes w b (some v)
  Writes-pure w v b x = (v, refl, x)

  two :
      (w v u : Writer) (a b : Bytes)
      → Extends w a v
      → (IsExact v → Extends v b u)
      → Extends w (a ++ b) u
  two w v u a b x y = Extends-then w v u a b x (y x.1)

  abbrev pub vouched_bytes : Vouched → Bytes
  vouched_bytes f = (be32 f.from ++ text_bytes c f.who) ++ text_bytes c f.name

  abbrev pub FitsVouched : Vouched → Type 0
  FitsVouched f = (f.from < 4294967296) × FitsText c f.who × FitsText c f.name

  Writes-vouched :
      (f : Vouched) (w : Writer)
      → FitsVouched f
      → IsExact w
      → Writes w (vouched_bytes f) (write_vouched c f w)
  unfolding write_vouched
  Writes-vouched f w h e =
      let first = Extends-u32 f.from w e in
      let who = Writes-text f.who (u32 f.from w) h.1 first.1 in
      Writes-then w _ (text_bytes c f.name) (text c f.who (u32 f.from w)) (text c f.name)
        (who.0, who.1, Extends-then w (u32 f.from w) who.0 (be32 f.from) _ first who.2)
        (λ v x. Writes-text f.name v h.2 x)

  abbrev pub client_bytes : ClientBody → Bytes
  client_bytes (ClientBody.sub since) = be32 since
  client_bytes ClientBody.unsub = []
  client_bytes (ClientBody.update n payload) = be32 n ++ payload
  client_bytes (ClientBody.awareness payload) = payload
  client_bytes (ClientBody.snapshot upto payload) = be32 upto ++ payload
  client_bytes (ClientBody.rotate target upto note payload) =
      text_bytes c target ++ ((be32 upto ++ block_bytes note) ++ payload)
  client_bytes ClientBody.signal = []
  client_bytes (ClientBody.seed n payload) = be32 n ++ payload

  -- The numbers fit their four bytes and the texts their length byte.
  abbrev pub FitsClient : ClientBody → Type 0
  FitsClient (ClientBody.sub since) = since < 4294967296
  FitsClient ClientBody.unsub = Unit
  FitsClient (ClientBody.update n payload) = n < 4294967296
  FitsClient (ClientBody.awareness payload) = Unit
  FitsClient (ClientBody.snapshot upto payload) = upto < 4294967296
  FitsClient (ClientBody.rotate target upto note payload) =
      FitsText c target × (upto < 4294967296) × (length note < 4294967296)
  FitsClient ClientBody.signal = Unit
  FitsClient (ClientBody.seed n payload) = n < 4294967296

  Writes-number_and_rest :
      (n : ℕ) (payload : Bytes) (w : Writer)
      → IsExact w
      → Writes w (be32 n ++ payload) (some (bytes payload (u32 n w)))
  Writes-number_and_rest n payload w e =
      Writes-pure w _ _
        (two w (u32 n w) _ (be32 n) payload (Extends-u32 n w e) (Extends-bytes payload (u32 n w)))

  pub Writes-client :
      (body : ClientBody) (w : Writer)
      → FitsClient body
      → IsExact w
      → Writes w (client_bytes body) (write_client c body w)
  unfolding write_client
  Writes-client (ClientBody.sub since) w h e = Writes-pure w _ _ (Extends-u32 since w e)
  Writes-client ClientBody.unsub w h e = Writes-pure w _ _ (Extends-nothing w e)
  Writes-client (ClientBody.update n payload) w h e = Writes-number_and_rest n payload w e
  Writes-client (ClientBody.awareness payload) w h e = Writes-pure w _ _ (Extends-bytes payload w e)
  Writes-client (ClientBody.snapshot upto payload) w h e = Writes-number_and_rest upto payload w e
  Writes-client (ClientBody.rotate target upto note payload) w h e =
      Writes-then w (text_bytes c target) _ (text c target w) _ (Writes-text target w h.0 e) (λ v x.
        Writes-pure v _ _ (
          two v (block note (u32 upto v)) _ (be32 upto ++ block_bytes note) payload
            (two v (u32 upto v) _ (be32 upto) (block_bytes note) (Extends-u32 upto v x)
              (Extends-block note (u32 upto v)))
            (Extends-bytes payload (block note (u32 upto v)))))
  Writes-client ClientBody.signal w h e = Writes-pure w _ _ (Extends-nothing w e)
  Writes-client (ClientBody.seed n payload) w h e = Writes-number_and_rest n payload w e

  abbrev pub server_bytes : ServerBody → Bytes
  server_bytes (ServerBody.state head snapshot deltas log) =
      (((be32 head ++ block_bytes (or_empty snapshot)) ++ be32 (length deltas))
        ++ blocks_bytes deltas)
      ++ text_bytes c log
  server_bytes (ServerBody.fanout seq from payload) = (be32 seq ++ be32 from) ++ payload
  server_bytes (ServerBody.echo seq n) = be32 seq ++ be32 n
  server_bytes (ServerBody.peer from payload) = be32 from ++ payload
  server_bytes (ServerBody.join f) = vouched_bytes f
  server_bytes (ServerBody.here f) = vouched_bytes f
  server_bytes (ServerBody.leave from) = be32 from
  server_bytes (ServerBody.moved target note) = text_bytes c target ++ note
  server_bytes ServerBody.revoked = []
  server_bytes (ServerBody.refused reason) = reason % 256 ∷ []
  server_bytes (ServerBody.signalled from) = be32 from

  abbrev pub FitsServer : ServerBody → Type 0
  FitsServer (ServerBody.state head snapshot deltas log) =
      (head < 4294967296)
      × (length (or_empty snapshot) < 4294967296)
      × (length deltas < 4294967296)
      × All (λ (d : Bytes). length d < 4294967296) deltas
      × FitsText c log
  FitsServer (ServerBody.fanout seq from payload) = (seq < 4294967296) × (from < 4294967296)
  FitsServer (ServerBody.echo seq n) = (seq < 4294967296) × (n < 4294967296)
  FitsServer (ServerBody.peer from payload) = from < 4294967296
  FitsServer (ServerBody.join f) = FitsVouched f
  FitsServer (ServerBody.here f) = FitsVouched f
  FitsServer (ServerBody.leave from) = from < 4294967296
  FitsServer (ServerBody.moved target note) = FitsText c target
  FitsServer ServerBody.revoked = Unit
  FitsServer (ServerBody.refused reason) = reason < 256
  FitsServer (ServerBody.signalled from) = from < 4294967296

  pub Writes-server :
      (body : ServerBody) (w : Writer)
      → FitsServer body
      → IsExact w
      → Writes w (server_bytes body) (write_server c body w)
  unfolding write_server
  Writes-server (ServerBody.state head snapshot deltas log) w h e =
      let w1 = u32 head w in
      let w2 = block (or_empty snapshot) w1 in
      let w3 = u32 (length deltas) w2 in
      let w4 = write_blocks deltas w3 in
      let x =
        two w w3 w4 _ (blocks_bytes deltas)
          (two w w2 w3 _ (be32 (length deltas))
            (two w w1 w2 (be32 head) (block_bytes (or_empty snapshot)) (Extends-u32 head w e)
              (Extends-block (or_empty snapshot) w1))
            (Extends-u32 (length deltas) w2))
          (Extends-blocks deltas w3) in
      let last = Writes-text log w4 h.4 x.1 in
      (last.0, last.1, Extends-then w w4 last.0 _ (text_bytes c log) x last.2)
  Writes-server (ServerBody.fanout seq from payload) w h e =
      let w1 = u32 seq w in
      let w2 = u32 from w1 in
      Writes-pure w _ _ (
        two w w2 _ (be32 seq ++ be32 from) payload
          (two w w1 w2 (be32 seq) (be32 from) (Extends-u32 seq w e) (Extends-u32 from w1))
          (Extends-bytes payload w2))
  Writes-server (ServerBody.echo seq n) w h e =
      let w1 = u32 seq w in
      Writes-pure w _ _ (two w w1 _ (be32 seq) (be32 n) (Extends-u32 seq w e) (Extends-u32 n w1))
  Writes-server (ServerBody.peer from payload) w h e = Writes-number_and_rest from payload w e
  Writes-server (ServerBody.join f) w h e = Writes-vouched f w h e
  Writes-server (ServerBody.here f) w h e = Writes-vouched f w h e
  Writes-server (ServerBody.leave from) w h e = Writes-pure w _ _ (Extends-u32 from w e)
  Writes-server (ServerBody.moved target note) w h e =
      Writes-then w (text_bytes c target) note (text c target w) _ (Writes-text target w h e)
        (λ v x. Writes-pure v _ _ (Extends-bytes note v x))
  Writes-server ServerBody.revoked w h e = Writes-pure w _ _ (Extends-nothing w e)
  Writes-server (ServerBody.refused reason) w h e = Writes-pure w _ _ (Extends-u8 reason w e)
  Writes-server (ServerBody.signalled from) w h e = Writes-pure w _ _ (Extends-u32 from w e)

  abbrev pub header_bytes : ℕ → ℕ → Text → Bytes
  header_bytes type slot doc = (type % 256 ∷ slot % 256 ∷ []) ++ text_bytes c doc

  Writes-header :
      (type slot : ℕ) (doc : Text)
      → FitsText c doc
      → Writes new_writer (header_bytes type slot doc) (write_header c type slot doc)
  unfolding write_header
  Writes-header type slot doc h =
      let w1 = u8 type new_writer in
      let w2 = u8 slot w1 in
      let x =
        two new_writer w1 w2 (type % 256 ∷ []) (slot % 256 ∷ [])
          (Extends-u8 type new_writer new_writer-IsExact) (Extends-u8 slot w1) in
      let last = Writes-text doc w2 h x.1 in
      (last.0, last.1, Extends-then new_writer w2 last.0 _ (text_bytes c doc) x last.2)

  written_new : written new_writer ≡ []
  unfolding written new_writer join
  written_new = refl

  finish_of :
      (a b : Bytes) (m : Option Writer) (f : Writer → Option Writer)
      → Writes new_writer a m
      → ((v : Writer) → IsExact v → Writes v b (f v))
      → (m >>= λ out. (f out >>= λ out'. some (finish out'))) ≡ some (a ++ b)
  finish_of a b m f (v, p, (q, e)) rest =
      let next = rest v e in
      rw (p, next.1, finish-IsExact next.0 next.2.1, next.2.0, q, written_new)

  pub encode_client_lem :
      (f : ClientFrame)
      → FitsText c f.doc
      → FitsClient f.body
      → encode_client c f
        ≡ some (header_bytes (client_type f.body) f.slot f.doc ++ client_bytes f.body)
  unfolding encode_client
  encode_client_lem f h k =
      finish_of _ _ _ (write_client c f.body) (Writes-header _ f.slot f.doc h)
        (λ v e. Writes-client f.body v k e)

  pub encode_server_lem :
      (f : ServerFrame)
      → FitsText c f.doc
      → FitsServer f.body
      → encode_server c f
        ≡ some (header_bytes (server_type f.body) f.slot f.doc ++ server_bytes f.body)
  unfolding encode_server
  encode_server_lem f h k =
      finish_of _ _ _ (write_server c f.body) (Writes-header _ f.slot f.doc h)
        (λ v e. Writes-server f.body v k e)
