-- ===== src/Sync/Diff.antt =====
-- packages/plugin/src/sync/diff.ts: the local files, the remote manifest and the baseline, compared
-- path by path.
pub mod Sound
pub mod Safety
pub mod Kept
pub mod Paths
pub mod Complete
use obsync.Base.{
  ℕ, Bool, true, false, not, ◌&&◌, ◌||◌, Option, none, some, List, [], ◌∷◌, ◌++◌, map, Text,
  text_dec, same, starts_with, length, filter, any, ◌==◌, if◌then◌else◌,
}
use obsync.Base.Dict
use obsync.Sync.Types.{
  ManifestEntry, Files, entry_at, keys, Manifest, SkippedFile, skipped_path, LocalSnapshot,
  EChangeType, FileChange, Conflict, DiffResult,
}
use obsync.Sync.Moves.{Unpaired, or_empty_text, has_path, unique_paths, pair_moves}

pub record DiffInput : Type 0 where
  pub local : LocalSnapshot
  pub remote : Option Manifest
  pub baseline : Option Manifest
  pub includes : Option (Text → Bool)

-- `manifest?.files ?? {}`.
abbrev pub files_of : Option Manifest → Files
files_of none = []
files_of (some m) = m.files

abbrev pub snapshot_of : Option Manifest → Option Text
snapshot_of none = none
snapshot_of (some m) = some m.snapshot_id

-- `===` on strings that may be null.
abbrev pub same_option : Option Text → Option Text → Bool
same_option none none = true
same_option (some a) (some b) = same a b
same_option _ _ = false

abbrev pub same_scene : Option Text → Option Text → Bool
same_scene none b = false
same_scene (some a) none = false
same_scene (some a) (some b) = same a b

unfoldable pub same_content : Option ManifestEntry → Option ManifestEntry → Bool
same_content none none = true
same_content (some a) (some b) = same a.hash b.hash || same_scene a.scene b.scene
same_content _ _ = false

unfoldable pub classify : Option Text → Option Text → Bool → EChangeType
classify none current remote = if remote then EChangeType.remote_add else EChangeType.local_add
classify (some b) none remote =
    if remote then EChangeType.remote_delete else EChangeType.local_delete
classify (some b) (some c) remote =
    if remote then EChangeType.remote_modify else EChangeType.local_modify

unfoldable pub is_under_unreadable_dir : Text → List Text → Bool
is_under_unreadable_dir path dirs =
    any (λ dir. length dir == 0 || starts_with (dir ++ 47 ∷ []) path) dirs

abbrev pub hash_of : Option ManifestEntry → Option Text
hash_of none = none
hash_of (some e) = some e.hash

abbrev pub passes : Option (Text → Bool) → Text → Bool
passes none path = true
passes (some includes) path = includes path

-- The paths in the order in which the set is filled.
abbrev pub all_paths : DiffInput → List Text
all_paths x =
    unique_paths
      (keys x.local.files
        ++ (filter (passes x.includes) (keys (files_of x.remote))
            ++ filter (passes x.includes) (keys (files_of x.baseline))))
      []

unfoldable pub is_unreadable : DiffInput → Text → Bool
unfolding is_under_unreadable_dir
is_unreadable x path =
    has_path path (map skipped_path x.local.skipped)
    || is_under_unreadable_dir path x.local.unreadable_dirs

-- The lists with what one path adds, before those of the later paths.
unfoldable pub add_local : DiffInput → Text → Unpaired → Unpaired
unfolding classify
add_local x path rest =
    let local = hash_of (entry_at x.local.files path) in
    let c : FileChange = record {
      path = path;
      change_type = classify (hash_of (entry_at (files_of x.baseline) path)) local false;
      local_hash = local;
      remote_hash = hash_of (entry_at (files_of x.remote) path);
    } in
    record rest { local_changes = c ∷ rest.local_changes }

unfoldable pub add_remote : DiffInput → Text → Unpaired → Unpaired
unfolding classify
add_remote x path rest =
    let remote = hash_of (entry_at (files_of x.remote) path) in
    let c : FileChange = record {
      path = path;
      change_type = classify (hash_of (entry_at (files_of x.baseline) path)) remote true;
      local_hash = hash_of (entry_at x.local.files path);
      remote_hash = remote;
    } in
    record rest { remote_changes = c ∷ rest.remote_changes }

unfoldable pub add_conflict : DiffInput → Text → Unpaired → Unpaired
add_conflict x path rest =
    let c : Conflict = record {
      path = path;
      local_hash = or_empty_text (hash_of (entry_at x.local.files path));
      remote_hash = or_empty_text (hash_of (entry_at (files_of x.remote) path));
      baseline_hash = hash_of (entry_at (files_of x.baseline) path);
    } in
    record rest { conflicts = c ∷ rest.conflicts }

unfoldable pub visit : DiffInput → Text → Unpaired → Unpaired
visit x path rest =
    let local_entry = entry_at x.local.files path in
    let remote_entry = entry_at (files_of x.remote) path in
    let baseline_entry = entry_at (files_of x.baseline) path in
    let local_changed = not (same_content local_entry baseline_entry) in
    let remote_changed = not (same_content remote_entry baseline_entry) in
    if is_unreadable x path
    then rest
    else if not local_changed && not remote_changed
    then rest
    else if local_changed && remote_changed
    then (if same_content local_entry remote_entry
        then record rest { converged = path ∷ rest.converged }
        else add_conflict x path rest)
    else if local_changed
    then add_local x path rest
    else add_remote x path rest

unfoldable pub compare : DiffInput → List Text → Unpaired
unfolding visit
compare x [] = record {
  local_changes = [];
  remote_changes = [];
  conflicts = [];
  converged = [];
  remote_moved = not (same_option (snapshot_of x.baseline) (snapshot_of x.remote));
}
compare x (path ∷ paths) = visit x path (compare x paths)

unfoldable pub diff : DiffInput → DiffResult
unfolding compare pair_moves
diff x = pair_moves (compare x (all_paths x)) (files_of x.baseline)
