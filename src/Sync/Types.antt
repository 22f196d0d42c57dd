-- ===== src/Sync/Types.antt =====
-- packages/plugin/src/sync/types.ts. A record by path is an association list in the order of its
-- keys; `none` is `undefined` or `null`.
use obsync.Base.{ℕ, Bool, Option, List, [], ◌∷◌, Text, text_dec}
use obsync.Base.Dict
use obsync.Base.Dict.{Dict}

pub data EFileKind : Type 0 where
  vault : EFileKind
  config : EFileKind
  plugin : EFileKind

pub record LiveMark : Type 0 where
  pub doc : Text
  pub gen : ℕ
  pub seq : ℕ

pub record ManifestEntry : Type 0 where
  pub hash : Text
  pub size : ℕ
  pub mtime : ℕ
  pub kind : EFileKind
  pub live : Option LiveMark
  pub by : Option ℕ
  pub scene : Option Text

pub record ManifestAuthor : Type 0 where
  pub key : Text
  pub name : Text

abbrev pub Files : Type 0
Files = Dict Text ManifestEntry

-- `entryAt`, and `files[path]`: what that reads of Object.prototype for an absent path has no hash,
-- and is compared as an absent entry is.
abbrev pub entry_at : Files → Text → Option ManifestEntry
entry_at files path = Dict.lookup text_dec path files

abbrev pub keys {ℓ} : {V : Type ℓ} → List (Text × V) → List Text
keys [] = []
keys ((k, v) ∷ m) = k ∷ keys m

pub record Manifest : Type 0 where
  pub version : ℕ
  pub vault_id : Text
  pub snapshot_id : Text
  pub parent_snapshot_id : Option Text
  pub created_at : ℕ
  pub device_id : Text
  pub device_name : Option Text
  pub files : Files
  pub folders : Option (List Text)
  pub reset_generations : Option (List (Text × ℕ))
  pub authors : Option (List ManifestAuthor)

-- Left out of the sync, and why.
pub data SkippedFile : Type 0 where
  too_large : Text → ℕ → SkippedFile
  unreadable : Text → Option Text → SkippedFile
  case_clash : Text → Text → SkippedFile

abbrev pub skipped_path : SkippedFile → Text
skipped_path (too_large path size) = path
skipped_path (unreadable path detail) = path
skipped_path (case_clash path other) = path

pub record LocalSnapshot : Type 0 where
  pub files : Files
  pub skipped : List SkippedFile
  pub empty_folders : List Text
  pub ignored_paths : List Text
  pub unreadable_dirs : List Text
  pub unindexed : Option (List Text)

pub data EChangeType : Type 0 where
  local_add : EChangeType
  local_modify : EChangeType
  local_delete : EChangeType
  remote_add : EChangeType
  remote_modify : EChangeType
  remote_delete : EChangeType

pub record FileChange : Type 0 where
  pub path : Text
  pub change_type : EChangeType
  pub local_hash : Option Text
  pub remote_hash : Option Text

pub record Conflict : Type 0 where
  pub path : Text
  pub local_hash : Text
  pub remote_hash : Text
  pub baseline_hash : Option Text

pub data Side : Type 0 where
  local : Side
  remote : Side

pub record Move : Type 0 where
  pub from : Text
  pub to : Text
  pub side : Side

pub record DiffResult : Type 0 where
  pub local_changes : List FileChange
  pub remote_changes : List FileChange
  pub conflicts : List Conflict
  pub moves : List Move
  pub converged : List Text
  pub remote_moved : Bool

pub record HashCacheEntry : Type 0 where
  pub mtime : ℕ
  pub size : ℕ
  pub hash : Text
  pub scene : Option Text

pub record SessionState : Type 0 where
  pub device_id : Text
  pub device_name : Option Text
  pub vault_id : Option Text
  pub baseline : Option Manifest
  pub hash_cache : Dict Text HashCacheEntry
