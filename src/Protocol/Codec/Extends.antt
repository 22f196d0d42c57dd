-- ===== src/Protocol/Codec/Extends.antt =====
-- What one call of the writer adds to it.
use obsync.Base.{
  ℕ, ◌%◌, ◌≡◌, sym, ◌∙◌, Option, some, List, [], ◌∷◌, ◌++◌, append-nil, append_assoc, Bytes, length,
}
use obsync.Protocol.Bytes.{be32, Writer, bytes, u8, u32, block}
use obsync.Protocol.Bytes.Laws.{written, IsExact, written-bytes, bytes-IsExact}
use obsync.Protocol.Codec.{write_blocks}

-- `v` has `b` written after what `w` has.
abbrev pub Extends : Writer → Bytes → Writer → Type 0
Extends w b v = (written v ≡ written w ++ b) × IsExact v

abbrev pub Writes : Writer → Bytes → Option Writer → Type 0
Writes w b m = (v : Writer) × (m ≡ some v) × Extends w b v

pub Extends-nothing : (w : Writer) → IsExact w → Extends w [] w
Extends-nothing w e = (sym (append-nil (written w)), e)

pub Extends-then :
    (w v u : Writer) (a b : Bytes) → Extends w a v → Extends v b u → Extends w (a ++ b) u
Extends-then w v u a b (p, e) (q, f) = (q ∙ rw p (append_assoc (written w) a b), f)

pub Extends-bytes : (v : Bytes) (w : Writer) → IsExact w → Extends w v (bytes v w)
Extends-bytes v w e = (written-bytes v w, bytes-IsExact v w e)

pub Extends-u8 : (n : ℕ) (w : Writer) → IsExact w → Extends w (n % 256 ∷ []) (u8 n w)
unfolding u8
Extends-u8 n w e = Extends-bytes (n % 256 ∷ []) w e

pub Extends-u32 : (n : ℕ) (w : Writer) → IsExact w → Extends w (be32 n) (u32 n w)
unfolding u32
Extends-u32 n w e = Extends-bytes (be32 n) w e

abbrev pub block_bytes : Bytes → Bytes
block_bytes v = be32 (length v) ++ v

pub Extends-block : (v : Bytes) (w : Writer) → IsExact w → Extends w (block_bytes v) (block v w)
unfolding block
Extends-block v w e =
    let first = Extends-u32 (length v) w e in
    Extends-then w (u32 (length v) w) _ (be32 (length v)) v first (Extends-bytes v _ first.1)

abbrev pub blocks_bytes : List Bytes → Bytes
blocks_bytes [] = []
blocks_bytes (delta ∷ deltas) = block_bytes delta ++ blocks_bytes deltas

pub Extends-blocks :
    (deltas : List Bytes) (w : Writer)
    → IsExact w
    → Extends w (blocks_bytes deltas) (write_blocks deltas w)
unfolding write_blocks
Extends-blocks [] w e = Extends-nothing w e
Extends-blocks (delta ∷ deltas) w e =
    let first = Extends-block delta w e in
    Extends-then w (block delta w) _ (block_bytes delta) (blocks_bytes deltas) first
      (Extends-blocks deltas (block delta w) first.1)
