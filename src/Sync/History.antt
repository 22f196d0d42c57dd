-- ===== src/Sync/History.antt =====
-- packages/plugin/src/sync/history/changes.ts: what a snapshot changed, and how it is undone.
pub mod Changes
pub mod Undo
pub mod Replay
pub mod Publish
pub mod Published
pub mod Garbage
pub mod Hashes
pub mod Sweep
use obsync.Base.{
  ℕ, zero, suc, Bool, true, false, ◌&&◌, Option, none, some, List, [], ◌∷◌, Text, text_dec, same,
  ◌==◌, if◌then◌else◌,
}
use obsync.Base.Dict
use obsync.Base.Dict.{Dict}
use obsync.Sync.Types.{EFileKind, ManifestEntry, Files, entry_at, Manifest}
use obsync.Sync.Moves.{add_path}
use obsync.Sync.Diff.{files_of, same_option}
use obsync.Spaces.Paths.{FileChange, SnapshotEntry, SnapshotChanges, HistoryLog}

unfoldable pub same_kind : EFileKind → EFileKind → Bool
same_kind EFileKind.vault EFileKind.vault = true
same_kind EFileKind.config EFileKind.config = true
same_kind EFileKind.plugin EFileKind.plugin = true
same_kind _ _ = false

abbrev pub same_entry : ManifestEntry → ManifestEntry → Bool
same_entry a b =
    same a.hash b.hash && a.size == b.size && a.mtime == b.mtime && same_kind a.kind b.kind

-- One turn of the loop over the files of the next manifest.
abbrev pub add_change :
    Text → ManifestEntry → Option ManifestEntry → SnapshotChanges → SnapshotChanges
add_change path entry none changes = record changes {
  added = Dict.insert text_dec path entry changes.added;
}
add_change path entry (some before) changes =
    if same_entry before entry then changes else record changes {
      modified = Dict.insert text_dec path (record { from = before; to = entry }) changes.modified;
    }

abbrev pub add_changes : Files → Files → SnapshotChanges → SnapshotChanges
add_changes parent [] changes = changes
add_changes parent ((path, entry) ∷ files) changes =
    add_changes parent files (add_change path entry (entry_at parent path) changes)

-- One turn of the loop over the files of the parent.
abbrev pub add_deletion :
    Text → ManifestEntry → Option ManifestEntry → SnapshotChanges → SnapshotChanges
add_deletion path entry none changes = record changes {
  deleted = Dict.insert text_dec path entry changes.deleted;
}
add_deletion path entry (some after) changes = changes

abbrev pub add_deletions : Files → Files → SnapshotChanges → SnapshotChanges
add_deletions next [] changes = changes
add_deletions next ((path, entry) ∷ files) changes =
    add_deletions next files (add_deletion path entry (entry_at next path) changes)

unfoldable pub diff_manifests : Option Manifest → Manifest → SnapshotChanges
diff_manifests parent next =
    add_deletions next.files (files_of parent) (
      add_changes (files_of parent) next.files (record { added = []; modified = []; deleted = [] }))

abbrev pub erase_added : Files → Files → Files
erase_added [] files = files
erase_added ((path, entry) ∷ added) files = erase_added added (Dict.erase text_dec path files)

abbrev pub put_from : List (Text × FileChange) → Files → Files
put_from [] files = files
put_from ((path, change) ∷ modified) files =
    put_from modified (Dict.insert text_dec path change.from files)

abbrev pub put_deleted : Files → Files → Files
put_deleted [] files = files
put_deleted ((path, entry) ∷ deleted) files =
    put_deleted deleted (Dict.insert text_dec path entry files)

unfoldable pub undo_changes : Files → SnapshotChanges → Files
undo_changes files changes =
    put_deleted changes.deleted (put_from changes.modified (erase_added changes.added files))

abbrev pub or_entry : Option ManifestEntry → Option ManifestEntry → Option ManifestEntry
or_entry none entry = entry
or_entry (some e) entry = some e

abbrev pub undo_modified :
    Option FileChange → Option ManifestEntry → Option ManifestEntry → Option ManifestEntry
undo_modified (some change) deleted entry = some change.from
undo_modified none deleted entry = or_entry deleted entry

abbrev pub undo_at :
    Option ManifestEntry
    → Option FileChange
    → Option ManifestEntry
    → Option ManifestEntry
    → Option ManifestEntry
undo_at (some e) modified deleted entry = none
undo_at none modified deleted entry = undo_modified modified deleted entry

unfoldable pub undo_changes_for_path :
    Option ManifestEntry → SnapshotChanges → Text → Option ManifestEntry
undo_changes_for_path entry changes path =
    undo_at (entry_at changes.added path) (Dict.lookup text_dec path changes.modified)
      (entry_at changes.deleted path) entry

abbrev pub contiguous_length : List SnapshotEntry → ℕ
contiguous_length [] = 0
contiguous_length (entry ∷ []) = 1
contiguous_length (entry ∷ parent ∷ rest) =
    let more = contiguous_length (parent ∷ rest) in
    if same_option entry.parent_id (some parent.id) then suc more else 1

-- replay.ts: the manifest of an entry, with the files that are left.
abbrev pub replayed : Manifest → SnapshotEntry → Files → Manifest
replayed head entry files = record {
  version = head.version;
  vault_id = head.vault_id;
  snapshot_id = entry.id;
  parent_snapshot_id = entry.parent_id;
  created_at = entry.created_at;
  device_id = entry.device_id;
  device_name = entry.device_name;
  files = files;
  folders = none;
  reset_generations = none;
  authors = none;
}

-- The loop, with the entries that are still reachable.
abbrev pub replay_from :
    Manifest → Dict Text SnapshotChanges → Text → ℕ → List SnapshotEntry → Files → Option Manifest
replay_from head changes id zero entries files = none
replay_from head changes id (suc reachable) [] files = none
replay_from head changes id (suc reachable) (entry ∷ entries) files =
    if same entry.id id
    then some (replayed head entry files)
    else (elim (Dict.lookup text_dec entry.id changes) [
      | none ↦ none
      | some c ↦ replay_from head changes id reachable entries (undo_changes files c)
    ])

abbrev pub first_id : List SnapshotEntry → Option Text
first_id [] = none
first_id (entry ∷ entries) = some entry.id

unfoldable pub replay_to : Manifest → HistoryLog → Text → Option Manifest
replay_to head log id =
    if same_option (first_id log.snapshots) (some head.snapshot_id)
    then replay_from head log.changes id (contiguous_length log.snapshots) log.snapshots head.files
    else none

-- A `Set` of hashes is the list of its members in the order in which they came.
abbrev pub collect_hashes : Files → List Text → List Text
collect_hashes [] into = into
collect_hashes ((path, entry) ∷ files) into = collect_hashes files (add_path entry.hash into)

abbrev pub collect_both : List (Text × FileChange) → List Text → List Text
collect_both [] into = into
collect_both ((path, change) ∷ modified) into =
    collect_both modified (add_path change.to.hash (add_path change.from.hash into))

abbrev pub collect_change_hashes : SnapshotChanges → List Text → List Text
collect_change_hashes changes into =
    collect_hashes changes.deleted
      (collect_both changes.modified (collect_hashes changes.added into))
