-- ===== src/Base/Keys.antt =====
-- Association lists in which every key stands once, as in a `Map` or a record.
use mathlib.Core.Path.{◌≡◌, refl, ap}
use mathlib.Core.Bool.{Bool, false}
use mathlib.Core.List.{List, [], ◌∷◌, map}
use mathlib.Core.Option.{Option, none, some}
use native.Mathlib.Omega.{arith}
use obsync.Base.Dict
use obsync.Base.Lists.{All, any, filter}
use obsync.Base.Strings.{Text, text_dec, same}

abbrev pub IsUnique : {V : Type 0} → List (Text × V) → Type 0
IsUnique [] = Unit
IsUnique ((k, v) ∷ m) = (Dict.lookup text_dec k m ≡ none) × IsUnique m

pub insert-IsUnique :
    {V : Type 0} (k : Text) (v : V) (m : List (Text × V))
    → IsUnique m
    → IsUnique (Dict.insert text_dec k v m)
unfolding Dict.insert Dict.lookup
insert-IsUnique k v [] h = (refl, tt)
insert-IsUnique k v ((j, w) ∷ m) h =
    ground (arith, Dict.lookup-insert text_dec j k v m, insert-IsUnique k v m h.1)

-- Every entry is the one that its key finds.
abbrev pub IsFound : {V : Type 0} → List (Text × V) → Text × V → Type 0
IsFound m e = Dict.lookup text_dec e.0 m ≡ some e.1

IsFound-past :
    {V : Type 0} (j : Text) (w : V) (m es : List (Text × V))
    → Dict.lookup text_dec j m ≡ none
    → All (IsFound m) es
    → All (IsFound ((j, w) ∷ m)) es
unfolding Dict.lookup
IsFound-past j w m [] n h = tt
IsFound-past j w m (e ∷ es) n h = (ground (arith, h.0), IsFound-past j w m es n h.1)

pub IsUnique-IsFound : {V : Type 0} (m : List (Text × V)) → IsUnique m → All (IsFound m) m
unfolding Dict.lookup
IsUnique-IsFound [] h = tt
IsUnique-IsFound ((j, w) ∷ m) h = (ground arith, IsFound-past j w m m h.0 (IsUnique-IsFound m h.1))

-- Whether the entry that a key finds passes a test.
abbrev pub passes_at : {V : Type 0} → (Text × V → Bool) → Text → Option V → Bool
passes_at q k none = false
passes_at q k (some v) = q (k, v)

-- A key is among the entries that pass a test if the entry that it finds passes.
pub any-filter_keys :
    {V : Type 0} (q : Text × V → Bool) (k : Text) (m : List (Text × V))
    → IsUnique m
    → any (λ j. same j k) (map (λ e. e.0) (filter q m)) ≡ passes_at q k (Dict.lookup text_dec k m)
unfolding Dict.lookup
any-filter_keys q k [] h = refl
any-filter_keys q k ((j, v) ∷ m) h = ground (arith, any-filter_keys q k m h.1, ap (λ t. q (t, v)))
