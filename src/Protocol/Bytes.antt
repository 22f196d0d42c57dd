-- ===== src/Protocol/Bytes.antt =====
-- packages/protocol/src/bytes.ts. `none` stands for a thrown error. A reader is the part of the
-- source that is still unread.
pub mod Laws
use obsync.Base.{
  ℕ, zero, suc, ◌+◌, ◌*◌, ◌/◌, ◌%◌, ◌^◌, ◌≡◌, Bool, true, false, Option, none, some, List, [], ◌∷◌,
  ◌++◌, Text, Bytes, length, take, drop, ltb, if◌then◌else◌,
}

-- `TextEncoder` and the fatal, BOM-keeping `TextDecoder`, which belong to the platform. A
-- well-formed text has no lone surrogate.
pub record TextCoding : Type 0 where
  pub encode : Text → Bytes
  pub decode : Bytes → Option Text
  pub well_formed : Text → Bool
  pub decode-encode : (s : Text) → well_formed s ≡ true → decode (encode s) ≡ some s
  pub encode-decode : (b : Bytes) (s : Text) → decode b ≡ some s → encode s ≡ b

abbrev pub max_text_bytes : ℕ
max_text_bytes = 255

infixl 5 ◌>>=◌
abbrev pub ◌>>=◌ {ℓ κ} : {A : Type ℓ} {B : Type κ} → Option A → (A → Option B) → Option B
none >>= f = none
some a >>= f = f a

-- Big-endian, as `DataView.setUint32` stores it.
abbrev pub be32 : ℕ → Bytes
be32 n = n / 16777216 % 256 ∷ n / 65536 % 256 ∷ n / 256 % 256 ∷ n % 256 ∷ []

-- The parts in the order they were pushed, and the running length.
pub record Writer : Type 0 where
  pub parts : List Bytes
  pub total : ℕ

unfoldable pub new_writer : Writer
new_writer = record { parts = []; total = 0 }

unfoldable pub bytes : Bytes → Writer → Writer
bytes v w = record { parts = w.parts ++ v ∷ []; total = w.total + length v }

unfoldable pub u8 : ℕ → Writer → Writer
u8 v w = bytes (v % 256 ∷ []) w

unfoldable pub u32 : ℕ → Writer → Writer
u32 v w = bytes (be32 v) w

unfoldable pub block : Bytes → Writer → Writer
block v w = bytes v (u32 (length v) w)

-- `new Uint8Array(n)`.
unfoldable pub zeros : ℕ → Bytes
zeros zero = []
zeros (suc n) = 0 ∷ zeros n

-- `out.set(part, at)`: the bytes of `part` replace those from `at` on.
unfoldable pub blit : Bytes → ℕ → Bytes → Bytes
blit out at part = take at out ++ part ++ drop (at + length part) out

unfoldable pub fill : Bytes → ℕ → List Bytes → Bytes
fill out at [] = out
fill out at (part ∷ parts) = fill (blit out at part) (at + length part) parts

unfoldable pub finish : Writer → Bytes
finish w = fill (zeros w.total) 0 w.parts

abbrev pub Reader : Type 0 → Type 0
Reader A = Bytes → Option (A × Bytes)

unfoldable pub read_u8 : Reader ℕ
read_u8 [] = none
read_u8 (b ∷ r) = some (b, r)

unfoldable pub read_u32 : Reader ℕ
read_u32 (a ∷ b ∷ c ∷ d ∷ r) = some (a * 16777216 + b * 65536 + c * 256 + d, r)
read_u32 _ = none

unfoldable pub read_take : ℕ → Reader Bytes
read_take n r = if ltb (length r) n then none else some (take n r, drop n r)

unfoldable pub read_block : Reader Bytes
read_block r = read_u32 r >>= λ (n, rest). read_take n rest

unfoldable pub read_rest : Reader Bytes
read_rest r = read_take (length r) r

unfoldable pub more : Bytes → Bool
more [] = false
more (b ∷ r) = true

module _ (c : TextCoding) where
  unfoldable pub text : Text → Writer → Option Writer
  text s w =
      let b = c.encode s in
      if ltb max_text_bytes (length b) then none else some (bytes b (u8 (length b) w))

  unfoldable pub read_text : Reader Text
  read_text r = do
    (n, rest) ← read_u8 r
    (b, rest') ← read_take n rest
    s ← c.decode b
    some (s, rest')
