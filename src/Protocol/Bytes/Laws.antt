-- ===== src/Protocol/Bytes/Laws.antt =====
-- What the writer has written, and that the reader reads it back.
use Prim.Native.Nat.add
use obsync.Base.{
  ℕ, zero, suc, ◌+◌, ◌%◌, ◌≤◌, ◌<◌, ◌≡◌, refl, sym, ap, subst, ◌∙◌, true, none, some, List, [], ◌∷◌,
  ◌++◌, append-nil, append_assoc, arith, Text, Bytes, length, drop, length-append,
  take-length_append, drop-length_append,
}
use obsync.Protocol.Bytes.{
  TextCoding, max_text_bytes, ◌>>=◌, be32, Writer, new_writer, bytes, u8, u32, block, zeros, blit,
  fill, finish, read_u8, read_u32, read_take, read_block, read_rest, text, read_text,
}

-- All parts, one after the other.
unfoldable pub join : List Bytes → Bytes
join [] = []
join (p ∷ ps) = p ++ join ps

unfoldable pub written : Writer → Bytes
written w = join w.parts

join-append : (ps qs : List Bytes) → join (ps ++ qs) ≡ join ps ++ join qs
unfolding join
join-append [] qs = refl
join-append (p ∷ ps) qs = rw (join-append ps qs) (sym (append_assoc p (join ps) (join qs)))

length-zeros : (n : ℕ) → length (zeros n) ≡ n
unfolding zeros
length-zeros zero = refl
length-zeros (suc n) = ap suc (length-zeros n)

zeros-add : (k n : ℕ) → zeros (k + n) ≡ zeros k ++ zeros n
unfolding zeros
zeros-add zero n = ap zeros (add.zero n)
zeros-add (suc k) n = rw (add.suc k n) (ap (◌∷◌ 0) (zeros-add k n))

drop-zeros : (k n : ℕ) → drop k (zeros (k + n)) ≡ zeros n
drop-zeros k n =
    ap (drop k) (zeros-add k n)
    ∙ subst (λ m. drop m (zeros k ++ zeros n) ≡ zeros n) (length-zeros k)
        (drop-length_append (zeros k) (zeros n))

drop-length_plus : (xs ys : Bytes) (k : ℕ) → drop (length xs + k) (xs ++ ys) ≡ drop k ys
drop-length_plus [] ys k = rw (add.zero k) refl
drop-length_plus (x ∷ xs) ys k = rw (add.suc (length xs) k) (drop-length_plus xs ys k)

-- The length that the writer keeps is that of its parts.
abbrev pub IsExact : Writer → Type 0
IsExact w = w.total ≡ length (written w)

pub new_writer-IsExact : IsExact new_writer
unfolding new_writer written join
new_writer-IsExact = refl

pub written-bytes : (v : Bytes) (w : Writer) → written (bytes v w) ≡ written w ++ v
unfolding bytes written join
written-bytes v w = rw (join-append w.parts (v ∷ [])) (rw (append-nil v))

pub bytes-IsExact : (v : Bytes) (w : Writer) → IsExact w → IsExact (bytes v w)
unfolding bytes
bytes-IsExact v w e = omega (arith, ap length (written-bytes v w), length-append (written w) v)

blit-next :
    (done p rest : Bytes)
    → blit (done ++ zeros (length (p ++ rest))) (length done) p ≡ (done ++ p) ++ zeros (length rest)
unfolding blit
blit-next done p rest = rw (
  take-length_append done (zeros (length (p ++ rest))),
  drop-length_plus done (zeros (length (p ++ rest))) (length p),
  length-append p rest,
  drop-zeros (length p) (length rest),
)

fill-join :
    (done : Bytes) (parts : List Bytes)
    → fill (done ++ zeros (length (join parts))) (length done) parts ≡ done ++ join parts
unfolding fill join zeros
fill-join done [] = refl
fill-join done (p ∷ ps) =
    rw (blit-next done p (join ps), ← length-append done p, fill-join (done ++ p) ps)
      (append_assoc done p (join ps))

-- `finish` fills its buffer exactly.
pub finish-IsExact : (w : Writer) → IsExact w → finish w ≡ written w
unfolding finish written
finish-IsExact w e = rw e (fill-join [] w.parts)

pub written-u8 : (v : ℕ) (w : Writer) → written (u8 v w) ≡ written w ++ v % 256 ∷ []
unfolding u8
written-u8 v w = written-bytes (v % 256 ∷ []) w

pub written-u32 : (v : ℕ) (w : Writer) → written (u32 v w) ≡ written w ++ be32 v
unfolding u32
written-u32 v w = written-bytes (be32 v) w

pub written-block :
    (v : Bytes) (w : Writer) → written (block v w) ≡ written w ++ (be32 (length v) ++ v)
unfolding block
written-block v w =
    written-bytes v (u32 (length v) w)
    ∙ rw (written-u32 (length v) w) (append_assoc (written w) (be32 (length v)) v)

pub read_u8-u8 : (n : ℕ) (r : Bytes) → n < 256 → read_u8 (n % 256 ∷ r) ≡ some (n, r)
unfolding read_u8
read_u8-u8 n r h = ground arith

pub read_u32-be32 : (n : ℕ) (r : Bytes) → n < 4294967296 → read_u32 (be32 n ++ r) ≡ some (n, r)
unfolding read_u32
read_u32-be32 n r h = ground arith

pub read_take-length : (v r : Bytes) → read_take (length v) (v ++ r) ≡ some (v, r)
unfolding read_take
read_take-length v r =
    rw (take-length_append v r, drop-length_append v r, length-append v r) (ground arith)

pub read_rest_lem : (v : Bytes) → read_rest v ≡ some (v, [])
unfolding read_rest
read_rest_lem v =
    subst (λ w. read_take (length v) w ≡ some (v, [])) (append-nil v) (read_take-length v [])

pub read_block-block :
    (v r : Bytes) → length v < 4294967296 → read_block (be32 (length v) ++ v ++ r) ≡ some (v, r)
unfolding read_block
read_block-block v r h =
    ap (λ x. x >>= λ (n, rest). read_take n rest) (read_u32-be32 (length v) (v ++ r) h)
    ∙ read_take-length v r

module _ (c : TextCoding) where
  -- A text that fits a text field of a frame.
  abbrev pub FitsText : Text → Type 0
  FitsText s = (c.well_formed s ≡ true) × (length (c.encode s) ≤ max_text_bytes)

  unfoldable pub text_bytes : Text → Bytes
  text_bytes s = length (c.encode s) % 256 ∷ c.encode s

  pub text-some :
      (s : Text) (w : Writer)
      → length (c.encode s) ≤ max_text_bytes
      → text c s w ≡ some (bytes (c.encode s) (u8 (length (c.encode s)) w))
  unfolding text
  text-some s w h = ground arith

  pub text-none : (s : Text) (w : Writer) → max_text_bytes < length (c.encode s) → text c s w ≡ none
  unfolding text
  text-none s w h = ground arith

  pub read_text-text_bytes :
      (s : Text) (r : Bytes) → FitsText s → read_text c (text_bytes s ++ r) ≡ some (s, r)
  unfolding read_text text_bytes
  read_text-text_bytes s r h = rw (
    read_u8-u8 (length (c.encode s)) (c.encode s ++ r) (omega arith),
    read_take-length (c.encode s) r,
    c.decode-encode s h.0,
  )
