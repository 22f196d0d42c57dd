-- ===== src/Relay/Store/Cache.antt =====
-- The cache of `movedTo` answers as the table does, and stays within its size.
use obsync.Base.{
  suc, ◌-◌, ◌≤◌, ◌≡◌, ◌≢◌, refl, sym, ap₂, ◌∙◌, ◌⊎◌, inl, inr, Option, none, some, [], ◌∷◌, arith,
  Text, text_dec, length, if◌then◌else◌,
}
use obsync.Base.Dict
use obsync.Base.Dict.{Dict}
use obsync.Relay.Store.{
  Pointer, Store, Table, cache_key, remember, moved_cache_max, drop_oldest, has,
}
use obsync.Relay.Store.CacheKey.{cache_key-injective}

abbrev pub Cache : Type 0
Cache = Dict Text (Option Pointer)

-- An entry of the cache, against the pointer it stands for.
abbrev pub Agrees : Option (Option Pointer) → Option Pointer → Type 0
Agrees none q = Unit
Agrees (some p) q = p ≡ q

-- What the cache holds of a document is where it moved.
abbrev pub IsCoherent : Cache → Table (Option Pointer) → Type 0
IsCoherent m pointers =
    (c d : Text) → Agrees (Dict.lookup text_dec (cache_key c d) m) (pointers c d)

pub Agrees-some :
    (o : Option (Option Pointer)) (q p : Option Pointer) → Agrees o q → o ≡ some p → p ≡ q
Agrees-some none q p h e = cc
Agrees-some (some p') q p h e = cc

Agrees-if :
    (o : Option (Option Pointer)) (q : Option Pointer)
    → ((p : Option Pointer) → o ≡ some p → p ≡ q)
    → Agrees o q
Agrees-if none q h = tt
Agrees-if (some p) q h = h p refl

lookup-drop_oldest :
    (k : Text) (m : Cache) (v : Option Pointer)
    → Dict.lookup text_dec k (drop_oldest m) ≡ some v
    → Dict.lookup text_dec k m ≡ some v
unfolding Dict.lookup
lookup-drop_oldest k [] v e = e
lookup-drop_oldest k ((j, w) ∷ m) v e = ground (arith, Dict.lookup-erase text_dec k j m)

lookup-remember :
    (k j : Text) (q p : Option Pointer) (s : Store)
    → Dict.lookup text_dec k (remember j q s).moved ≡ some p
    → ((j ≡ k) × (p ≡ q)) ⊎ ((j ≢ k) × (Dict.lookup text_dec k s.moved ≡ some p))
unfolding remember
lookup-remember k j q p s e = ground (
  arith,
  Dict.lookup-insert text_dec k j q s.moved,
  Dict.lookup-insert text_dec k j q (drop_oldest s.moved),
  lookup-drop_oldest k s.moved p,
)

-- Remembering a pointer that a table holds.
pub remember-IsCoherent :
    (c d : Text) (q : Option Pointer) (s : Store) (old new : Table (Option Pointer))
    → IsCoherent s.moved old
    → new c d ≡ q
    → ((c' d' : Text) → ((c ≢ c') ⊎ (d ≢ d')) → new c' d' ≡ old c' d')
    → IsCoherent (remember (cache_key c d) q s).moved new
remember-IsCoherent c d q s old new h e kept c' d' =
    Agrees-if (Dict.lookup text_dec (cache_key c' d') (remember (cache_key c d) q s).moved)
      (new c' d') found
  where
    differ : cache_key c d ≢ cache_key c' d' → (c ≢ c') ⊎ (d ≢ d')
    differ n = elim (text_dec c c') [
      | no m ↦ inl m
      | yes m ↦ elim (text_dec d d') [ no l ↦ inr l | yes l ↦ absurd (n (ap₂ cache_key m l)) ]
    ]

    found :
        (p : Option Pointer)
        → Dict.lookup text_dec (cache_key c' d') (remember (cache_key c d) q s).moved ≡ some p
        → p ≡ new c' d'
    found p at = elim (lookup-remember (cache_key c' d') (cache_key c d) q p s at) [
      | inl (k, v) ↦
          let (same_channel, same_doc) = cache_key-injective c d c' d' k in
          v ∙ (sym e ∙ ap₂ new same_channel same_doc)
      | inr (n, v) ↦ Agrees-some _ (old c' d') p (h c' d') v ∙ sym (kept c' d' (differ n))
    ]

length-erase : (k : Text) (m : Cache) → length (Dict.erase text_dec k m) ≤ length m
unfolding Dict.erase
length-erase k [] = omega arith
length-erase k ((j, v) ∷ m) = ground (arith, length-erase k m)

length-insert :
    (k : Text) (v : Option Pointer) (m : Cache)
    → length (Dict.insert text_dec k v m) ≡ (if has k m then length m else suc (length m))
unfolding Dict.insert Dict.lookup
length-insert k v [] = refl
length-insert k v ((j, w) ∷ m) = ground (arith, length-insert k v m)

length-drop_oldest : (m : Cache) → length (drop_oldest m) ≤ length m - 1
length-drop_oldest [] = omega arith
length-drop_oldest ((j, w) ∷ m) = omega (arith, length-erase j m)

-- The cache never grows past its size.
pub remember-length :
    (k : Text) (q : Option Pointer) (s : Store)
    → length s.moved ≤ moved_cache_max
    → length (remember k q s).moved ≤ moved_cache_max
unfolding remember
remember-length k q s h = ground (
  arith,
  length-insert k q s.moved,
  length-insert k q (drop_oldest s.moved),
  length-drop_oldest s.moved,
)
