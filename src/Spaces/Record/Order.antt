-- ===== src/Spaces/Record/Order.antt =====
-- The order of the revisions of a record.
use obsync.Base.{◌≡◌, refl, true, false, [], ◌∷◌, arith, Text}
use obsync.Spaces.Record.{SpaceRecord, text_lt, is_newer}

pub text_lt_irrefl : (a : Text) → text_lt a a ≡ false
text_lt_irrefl [] = refl
text_lt_irrefl (c ∷ a) = ground (arith, text_lt_irrefl a)

pub text_lt_trans : (a b c : Text) → text_lt a b ≡ true → text_lt b c ≡ true → text_lt a c ≡ true
text_lt_trans [] [] c h k = ground arith
text_lt_trans [] (y ∷ b) [] h k = ground arith
text_lt_trans [] (y ∷ b) (z ∷ c) h k = refl
text_lt_trans (x ∷ a) [] c h k = ground arith
text_lt_trans (x ∷ a) (y ∷ b) [] h k = ground arith
text_lt_trans (x ∷ a) (y ∷ b) (z ∷ c) h k = ground (arith, text_lt_trans a b c)

pub text_lt_total : (a b : Text) → text_lt a b ≡ false → text_lt b a ≡ false → a ≡ b
text_lt_total [] [] h k = refl
text_lt_total [] (d ∷ b) h k = ground arith
text_lt_total (c ∷ a) [] h k = ground arith
text_lt_total (c ∷ a) (d ∷ b) h k = ground (arith, text_lt_total a b)

pub is_newer_irrefl : (a : SpaceRecord) → is_newer a a ≡ false
unfolding is_newer
is_newer_irrefl a = ground (arith, text_lt_irrefl a.author)

-- A revision is newer by its number, and by its author where the numbers are equal.
pub is_newer_trans :
    (a b c : SpaceRecord) → is_newer a b ≡ true → is_newer b c ≡ true → is_newer a c ≡ true
unfolding is_newer
is_newer_trans a b c h k = ground (arith, text_lt_trans c.author b.author a.author)

-- Two revisions of which neither is newer have one number and one author.
pub is_newer_total :
    (a b : SpaceRecord)
    → is_newer a b ≡ false
    → is_newer b a ≡ false
    → (a.rev ≡ b.rev) × (a.author ≡ b.author)
unfolding is_newer
is_newer_total a b h k = ground (arith, text_lt_total a.author b.author)

-- What is not newer than `b` is not newer than what `b` is not newer than.
pub is_newer_weak :
    (a b c : SpaceRecord) → is_newer a b ≡ false → is_newer b c ≡ false → is_newer a c ≡ false
unfolding is_newer
is_newer_weak a b c h k = ground (
  arith,
  text_lt_trans a.author c.author b.author,
  text_lt_trans b.author a.author c.author,
  text_lt_total a.author b.author,
  text_lt_total b.author c.author,
  text_lt_trans c.author a.author b.author,
)
