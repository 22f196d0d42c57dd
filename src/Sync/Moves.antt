-- ===== src/Sync/Moves.antt =====
-- packages/plugin/src/sync/moves.ts. A `Map` is an association list, a `Set` a list of its members,
-- both in the order of insertion.
pub mod Paths
pub mod Whole
use obsync.Base.{
  ℕ, zero, suc, ◌+◌, Bool, true, false, not, ◌&&◌, ◌||◌, Option, none, some, List, [], ◌∷◌, ◌++◌,
  map, Text, codes, text_dec, same, length, drop, filter, any, ◌==◌, if◌then◌else◌, ℕ_discrete, ite,
}
use obsync.Base.Dict
use obsync.Base.Dict.{Dict}
use obsync.Sync.Types.{Files, entry_at, EChangeType, FileChange, Conflict, Side, Move, DiffResult}
use obsync.Sync.Pairing.{Candidate, first, pair_up}

-- `Omit<DiffResult, "moves">`.
pub record Unpaired : Type 0 where
  pub local_changes : List FileChange
  pub remote_changes : List FileChange
  pub conflicts : List Conflict
  pub converged : List Text
  pub remote_moved : Bool

abbrev pub or_empty_text : Option Text → Text
or_empty_text none = []
or_empty_text (some s) = s

-- `s || null`.
abbrev pub null_if_empty_text : Text → Option Text
null_if_empty_text [] = none
null_if_empty_text (c ∷ s) = some (c ∷ s)

abbrev pub is_set {ℓ} : {A : Type ℓ} → Option A → Bool
is_set none = false
is_set (some a) = true

-- Deleted remotely, edited here.
abbrev pub edited_here : Conflict → Bool
edited_here c =
    length c.remote_hash == 0 && (not (length c.local_hash == 0) && is_set c.baseline_hash)

-- Deleted here, edited remotely.
abbrev pub edited_there : Conflict → Bool
edited_there c =
    length c.local_hash == 0 && (not (length c.remote_hash == 0) && is_set c.baseline_hash)

unfoldable pub change : Text → EChangeType → Conflict → FileChange
change path type c = record {
  path = path;
  change_type = type;
  local_hash = null_if_empty_text c.local_hash;
  remote_hash = null_if_empty_text c.remote_hash;
}

abbrev pub is_type : EChangeType → EChangeType → Bool
is_type EChangeType.local_add EChangeType.local_add = true
is_type EChangeType.local_modify EChangeType.local_modify = true
is_type EChangeType.local_delete EChangeType.local_delete = true
is_type EChangeType.remote_add EChangeType.remote_add = true
is_type EChangeType.remote_modify EChangeType.remote_modify = true
is_type EChangeType.remote_delete EChangeType.remote_delete = true
is_type _ _ = false

abbrev pub of_type : List FileChange → EChangeType → List FileChange
of_type changes type = filter (λ c. is_type c.change_type type) changes

-- `new Map(conflicts.map((c) => [c.path, c]))`.
unfoldable pub by_path : List Conflict → Dict Text Conflict → Dict Text Conflict
by_path [] m = m
by_path (c ∷ conflicts) m = by_path conflicts (Dict.insert text_dec c.path c m)

abbrev pub values {ℓ} : {V : Type ℓ} → List (Text × V) → List V
values [] = []
values ((k, v) ∷ m) = v ∷ values m

-- `baseline[path]?.hash ?? ""`.
abbrev pub was : Files → Text → Text
was baseline path = elim (entry_at baseline path) [ none ↦ [] | some e ↦ e.hash ]

abbrev pub has_path : Text → List Text → Bool
has_path path paths = any (λ p. same p path) paths

-- The conflicts that are left, and the remote changes.
abbrev pub Open : Type 0
Open = Dict Text Conflict × List FileChange

-- Edited here: the rename carries the edit to the new path.
unfoldable pub follow_remote : List (Text × Text) → Open → Open
unfolding change
follow_remote [] o = o
follow_remote ((from, to) ∷ pairs) o = elim (Dict.lookup text_dec from o.0) [
  | none ↦ follow_remote pairs o
  | some c ↦
      follow_remote pairs
        (Dict.erase text_dec from o.0, o.1 ++ change from EChangeType.remote_delete c ∷ [])
]

-- Edited there: the new path is held back, and their text lands first.
unfoldable pub follow_local : List (Text × Text) → Open → List Text → Open × List Text
unfolding change
follow_local [] o held = (o, held)
follow_local ((from, to) ∷ pairs) o held = elim (Dict.lookup text_dec from o.0) [
  | none ↦ follow_local pairs o held
  | some c ↦
      follow_local pairs
        (Dict.erase text_dec from o.0, o.1 ++ change from EChangeType.remote_modify c ∷ [])
        (held ++ to ∷ [])
]

abbrev pub moves_on : Side → List (Text × Text) → List Move
moves_on side pairs = map (λ p. record { from = p.0; to = p.1; side = side }) pairs

-- The candidates for a move on the remote side, and on this one.
abbrev pub gone_remotely : Unpaired → Files → List Candidate
gone_remotely result baseline =
    map (λ path. record { path = path; hash = was baseline path })
      (map (λ c. c.path) (of_type result.remote_changes EChangeType.remote_delete)
        ++ map (λ c. c.path) (filter edited_here (values (by_path result.conflicts []))))

abbrev pub fresh_remotely : Unpaired → List Candidate
fresh_remotely result =
    map (λ c. record { path = c.path; hash = or_empty_text c.remote_hash })
      (of_type result.remote_changes EChangeType.remote_add)

abbrev pub gone_locally : Unpaired → Files → List Candidate
gone_locally result baseline =
    map (λ path. record { path = path; hash = was baseline path })
      (map (λ c. c.path) (of_type result.local_changes EChangeType.local_delete)
        ++ map (λ c. c.path) (filter edited_there (values (by_path result.conflicts []))))

abbrev pub fresh_locally : Unpaired → List Candidate
fresh_locally result =
    map (λ c. record { path = c.path; hash = or_empty_text c.local_hash })
      (of_type result.local_changes EChangeType.local_add)

unfoldable pub pair_moves : Unpaired → Files → DiffResult
unfolding pair_up by_path follow_remote follow_local
pair_moves result baseline =
    let remote = pair_up (gone_remotely result baseline) (fresh_remotely result) in
    let local = pair_up (gone_locally result baseline) (fresh_locally result) in
    let followed = follow_remote remote (by_path result.conflicts [], result.remote_changes) in
    let (left, held) = follow_local local followed [] in
    record {
      local_changes = filter (λ c. not (has_path c.path held)) result.local_changes;
      remote_changes = left.1;
      conflicts = values left.0;
      moves = moves_on Side.remote remote ++ moves_on Side.local local;
      converged = result.converged;
      remote_moved = result.remote_moved;
    }

abbrev pub add_path : Text → List Text → List Text
add_path path paths = if has_path path paths then paths else paths ++ path ∷ []

unfoldable pub take_moves : List Move → List Text → List Text
take_moves [] taken = taken
take_moves (m ∷ moves) taken =
    if not (has_path m.from taken) && not (has_path m.to taken)
    then take_moves moves taken
    else take_moves moves (add_path m.to (add_path m.from taken))

unfoldable pub unique_paths : List Text → List Text → List Text
unique_paths [] taken = taken
unique_paths (path ∷ paths) taken = unique_paths paths (add_path path taken)

-- A move acts whole: asking for one of its paths takes the other too.
unfoldable pub with_moves : List Text → List Move → List Text
unfolding unique_paths take_moves
with_moves paths moves = take_moves moves (unique_paths paths [])
