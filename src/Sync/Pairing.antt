-- ===== src/Sync/Pairing.antt =====
-- packages/plugin/src/sync/moves.ts: `pairUp` and what it uses. A `Map` is an association list in
-- the order of insertion.
pub mod Groups
pub mod Pairs
use obsync.Base.{
  ℕ, zero, suc, ◌+◌, Bool, true, false, not, ◌&&◌, ◌||◌, Option, none, some, List, [], ◌∷◌, ◌++◌,
  map, Text, codes, text_dec, same, length, drop, filter, any, ◌==◌, if◌then◌else◌, ℕ_discrete, ite,
}
use obsync.Base.Dict
use obsync.Base.Dict.{Dict}
use obsync.Sync.Types.{Files, entry_at, EChangeType, FileChange, Conflict, Side, Move, DiffResult}

abbrev pub empty_hash : Text
empty_hash = codes "e3b0c44298fc1c149afbf4c8996fb92427ae41e4649b934ca495991b7852b855"

pub record Candidate : Type 0 where
  pub path : Text
  pub hash : Text

-- `lastIndexOf`, with `none` for -1.
unfoldable pub last_index_of : ℕ → Text → Option ℕ
last_index_of c [] = none
last_index_of c (d ∷ s) = elim (last_index_of c s) [
  | some i ↦ some (suc i)
  | none ↦ ite (ℕ_discrete d c) (some 0) none
]

abbrev pub next_index : Option ℕ → ℕ
next_index none = 0
next_index (some i) = suc i

-- `path.slice(path.lastIndexOf("/") + 1)`.
unfoldable pub name_of : Text → Text
unfolding last_index_of
name_of path = drop (next_index (last_index_of 47 path)) path

abbrev pub or_no_items {ℓ} : {A : Type ℓ} → Option (List A) → List A
or_no_items none = []
or_no_items (some items) = items

unfoldable pub group_from :
    {A : Type 0} → (A → Text) → List A → List (Text × List A) → List (Text × List A)
group_from key [] groups = groups
group_from key (item ∷ items) groups =
    let k = key item in
    group_from key items
      (Dict.insert text_dec k (or_no_items (Dict.lookup text_dec k groups) ++ item ∷ []) groups)

unfoldable pub group_by : {A : Type 0} → (A → Text) → List A → List (Text × List A)
unfolding group_from
group_by key items = group_from key items []

-- `items?.length === 1 ? items[0] : undefined`.
abbrev pub single {ℓ} : {A : Type ℓ} → Option (List A) → Option A
single (some (x ∷ [])) = some x
single _ = none

-- `items[0]`.
abbrev pub first {ℓ} : {A : Type ℓ} → List A → Option A
first [] = none
first (x ∷ xs) = some x

abbrev pub add_pair : Option Candidate → Option Candidate → List (Text × Text)
add_pair (some from) (some to) = (from.path, to.path) ∷ []
add_pair _ _ = []

-- The pairs of one hash, by file name.
unfoldable pub pair_names :
    List (Text × List Candidate) → List (Text × List Candidate) → List (Text × Text)
pair_names [] named = []
pair_names ((name, from) ∷ groups) named =
    add_pair (single (some from)) (single (Dict.lookup text_dec name named))
    ++ pair_names groups named

unfoldable pub pair_group : Text → List Candidate → Option (List Candidate) → List (Text × Text)
unfolding pair_names group_by name_of
pair_group hash sources none = []
pair_group hash sources (some into) =
    if length hash == 0 || same hash empty_hash
    then []
    else if length sources == 1 && length into == 1
    then add_pair (first sources) (first into)
    else pair_names (group_by (λ c. name_of c.path) sources) (group_by (λ c. name_of c.path) into)

unfoldable pub pair_groups :
    List (Text × List Candidate) → List (Text × List Candidate) → List (Text × Text)
unfolding pair_group
pair_groups [] targets = []
pair_groups ((hash, sources) ∷ groups) targets =
    pair_group hash sources (Dict.lookup text_dec hash targets) ++ pair_groups groups targets

unfoldable pub pair_up : List Candidate → List Candidate → List (Text × Text)
unfolding pair_groups group_by
pair_up gone fresh = pair_groups (group_by (λ c. c.hash) gone) (group_by (λ c. c.hash) fresh)
