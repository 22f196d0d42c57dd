-- ===== src/Spaces/Paths.antt =====
-- packages/plugin/src/sync/space-paths.ts: the paths of a manifest below a space's root, and in the
-- vault. `none` is a thrown error.
pub mod RoundTrip
use obsync.Base.{
  ℕ, ◌+◌, Bool, true, false, ◌||◌, Option, none, some, List, [], ◌∷◌, ◌++◌, map, Text, text_dec,
  same, starts_with, length, drop, ◌==◌, if◌then◌else◌,
}
use obsync.Base.Dict
use obsync.Base.Dict.{Dict}
use obsync.Sync.Types.{Manifest, ManifestEntry}
use obsync.Spaces.Space.{slash}

abbrev pub Rekey : Type 0
Rekey = Text → Option Text

abbrev pub strip_root : Text → Rekey
strip_root root path =
    if starts_with (slash root) path then some (drop (length root + 1) path) else none

abbrev pub add_root : Text → Rekey
add_root root path = some (slash root ++ path)

-- The loop of `rekeyRecord`.
unfoldable pub rekey_onto :
    {V : Type 0} → Rekey → List (Text × V) → Dict Text V → Option (Dict Text V)
rekey_onto rekey [] out = some out
rekey_onto rekey ((path, value) ∷ entries) out = elim (rekey path) [
  | none ↦ none
  | some p ↦ rekey_onto rekey entries (Dict.insert text_dec p value out)
]

abbrev pub rekey_record : {V : Type 0} → Rekey → List (Text × V) → Option (Dict Text V)
rekey_record rekey entries = rekey_onto rekey entries []

infixl 5 ◌>>=◌
abbrev pub ◌>>=◌ {ℓ κ} : {A : Type ℓ} {B : Type κ} → Option A → (A → Option B) → Option B
none >>= f = none
some a >>= f = f a

-- `paths.map(rekey)`, where a throw ends the whole.
abbrev pub rekey_all : Rekey → List Text → Option (List Text)
rekey_all rekey [] = some []
rekey_all rekey (path ∷ paths) = do p ← rekey path; rest ← rekey_all rekey paths; some (p ∷ rest)

abbrev pub rekey_folders : Rekey → Option (List Text) → Option (Option (List Text))
rekey_folders rekey none = some none
rekey_folders rekey (some folders) = do moved ← rekey_all rekey folders; some (some moved)

abbrev pub rekey_manifest : Manifest → Rekey → Option Manifest
rekey_manifest m rekey = do
  files ← rekey_record rekey m.files
  folders ← rekey_folders rekey m.folders
  some (record m { files = files; folders = folders })

unfoldable pub manifest_to_space : Manifest → Text → Option Manifest
unfolding rekey_onto
manifest_to_space m root = if length root == 0 then some m else rekey_manifest m (strip_root root)

unfoldable pub manifest_to_vault : Manifest → Text → Option Manifest
unfolding rekey_onto
manifest_to_vault m root = if length root == 0 then some m else rekey_manifest m (add_root root)

-- A baseline kept under `from`, for a space now mounted at `to`.
unfoldable pub manifest_moved : Manifest → Text → Text → Option Manifest
unfolding manifest_to_space manifest_to_vault
manifest_moved m from to =
    if same from to
    then some m
    else manifest_to_space m from >>= λ inside. manifest_to_vault inside to

pub record SnapshotEntry : Type 0 where
  pub id : Text
  pub parent_id : Option Text
  pub created_at : ℕ
  pub device_id : Text
  pub device_name : Option Text
  pub pinned : Bool
  pub label : Option Text

pub record FileChange : Type 0 where
  pub from : ManifestEntry
  pub to : ManifestEntry

pub record SnapshotChanges : Type 0 where
  pub added : Dict Text ManifestEntry
  pub modified : Dict Text FileChange
  pub deleted : Dict Text ManifestEntry

pub record HistoryLog : Type 0 where
  pub version : ℕ
  pub snapshots : List SnapshotEntry
  pub changes : Dict Text SnapshotChanges

abbrev pub rekey_changes : Rekey → SnapshotChanges → Option SnapshotChanges
rekey_changes rekey c = do
  added ← rekey_record rekey c.added
  modified ← rekey_record rekey c.modified
  deleted ← rekey_record rekey c.deleted
  some (record { added = added; modified = modified; deleted = deleted })

-- The loop of `rekeyLog`: `Object.entries` names an id once.
abbrev pub rekey_log_changes :
    Rekey → Dict Text SnapshotChanges → Option (Dict Text SnapshotChanges)
rekey_log_changes rekey [] = some []
rekey_log_changes rekey ((id, c) ∷ changes) = do
  moved ← rekey_changes rekey c
  rest ← rekey_log_changes rekey changes
  some ((id, moved) ∷ rest)

abbrev pub rekey_log : HistoryLog → Rekey → Option HistoryLog
rekey_log log rekey = do
  changes ← rekey_log_changes rekey log.changes
  some (record log { changes = changes })

unfoldable pub history_log_to_space : HistoryLog → Text → Option HistoryLog
unfolding rekey_onto
history_log_to_space log root =
    if length root == 0 then some log else rekey_log log (strip_root root)

unfoldable pub history_log_to_vault : HistoryLog → Text → Option HistoryLog
unfolding rekey_onto
history_log_to_vault log root = if length root == 0 then some log else rekey_log log (add_root root)
