-- ===== src/Sync/Baseline.antt =====
-- packages/plugin/src/sync/baseline.ts and config-reset.ts: how the baseline advances. What
-- `randomId` draws is an argument, and the scope policy a record of functions.
pub mod Advance
pub mod Folders
use obsync.Base.{
  ℕ, zero, suc, ◌+◌, Bool, true, false, not, ◌&&◌, ◌||◌, Option, none, some, List, [], ◌∷◌, ◌++◌,
  map, Text, codes, text_dec, same, length, filter, ltb, leb, ◌==◌, if◌then◌else◌,
}
use obsync.Base.Dict
use obsync.Base.Dict.{Dict}
use obsync.Sync.Types.{
  ManifestEntry, Files, entry_at, keys, Manifest, LocalSnapshot, DiffResult, HashCacheEntry,
  SessionState,
}
use obsync.Sync.Moves.{has_path, add_path, unique_paths, or_empty_text}
use obsync.Sync.Diff.{files_of, hash_of, same_option}

-- The methods of `ScopePolicy` that are called here.
pub record ScopePolicy : Type 0 where
  pub config_dir : Option Text
  pub can_descend : Text → Bool
  pub get_category : Text → Option Text

pub record CompareResult : Type 0 where
  pub snapshot : LocalSnapshot
  pub remote : Option Manifest
  pub diff : DiffResult
  pub updated_cache : Dict Text HashCacheEntry

-- What a template literal makes of a missing value.
abbrev pub shown : Text → Option Text → Text
shown missing none = missing
shown missing (some s) = s

abbrev pub generations_of : Option (List (Text × ℕ)) → Dict Text ℕ
generations_of none = []
generations_of (some m) = m

abbrev pub count_at : Dict Text ℕ → Text → ℕ
count_at m k = elim (Dict.lookup text_dec k m) [ none ↦ 0 | some n ↦ n ]

-- `{ ...a, ...b }`.
unfoldable pub spread : {V : Type 0} → Dict Text V → Dict Text V → Dict Text V
spread a [] = a
spread a ((k, v) ∷ b) = spread (Dict.insert text_dec k v a) b

-- The categories that the remote has reset since.
unfoldable pub reset_categories : Manifest → Manifest → List Text
reset_categories baseline remote =
    map (λ e. e.0)
      (filter (λ e. ltb (count_at (generations_of baseline.reset_generations) e.0) e.1)
        (generations_of remote.reset_generations))

abbrev pub keeps : ScopePolicy → List Text → Text → Bool
keeps policy reset path = not (
    has_path
      (shown (codes "undefined") policy.config_dir
        ++ 47 ∷ shown (codes "null") (policy.get_category path))
      reset)

abbrev pub map_option : {A B : Type 0} → (A → B) → Option A → Option B
map_option f none = none
map_option f (some a) = some (f a)

unfoldable pub reconcile_baseline_reset_generations :
    Option Manifest → Manifest → ScopePolicy → Option Manifest
unfolding reset_categories spread
reconcile_baseline_reset_generations none remote policy = none
reconcile_baseline_reset_generations (some baseline) remote policy =
    let reset = reset_categories baseline remote in
    if length reset == 0
    then some baseline
    else some (record baseline {
      files = filter (λ e. keeps policy reset e.0) baseline.files;
      folders = map_option (filter (λ dir. keeps policy reset (dir ++ 47 ∷ []))) baseline.folders;
      reset_generations = some (
          spread (generations_of baseline.reset_generations)
            (generations_of remote.reset_generations));
    })

abbrev pub or_no_folders : Option (List Text) → List Text
or_no_folders none = []
or_no_folders (some dirs) = dirs

abbrev pub folders_of : Option Manifest → Option (List Text)
folders_of none = none
folders_of (some m) = m.folders

-- `sides.set(dir, (sides.get(dir) ?? 0) + 1)`.
unfoldable pub count_sides : List Text → Dict Text ℕ → Dict Text ℕ
count_sides [] sides = sides
count_sides (dir ∷ dirs) sides =
    count_sides dirs (Dict.insert text_dec dir (count_at sides dir + 1) sides)

unfoldable pub majority_folders : Option (List Text) → Option (List Text) → List Text → List Text
unfolding count_sides
majority_folders baseline remote local =
    map (λ e. e.0)
      (filter (λ e. leb 2 e.1)
        (count_sides (or_no_folders baseline ++ (or_no_folders remote ++ local)) []))

-- `for (const path of paths)`.
unfoldable pub advance_files : Files → List Text → Files → Files
advance_files published [] files = files
advance_files published (path ∷ paths) files =
    advance_files published paths (elim (entry_at published path) [
      | some entry ↦ Dict.insert text_dec path entry files
      | none ↦ Dict.erase text_dec path files
    ])

abbrev pub reconciled : Option Manifest → Manifest → Option ScopePolicy → Option Manifest
reconciled previous published none = previous
reconciled previous published (some scope) =
    reconcile_baseline_reset_generations previous published scope

abbrev pub advanced_folders :
    Option Manifest → Manifest → List Text → Option ScopePolicy → List Text
advanced_folders base published on_disk none =
    majority_folders (folders_of base) published.folders on_disk
advanced_folders base published on_disk (some scope) =
    filter (λ dir. not (scope.can_descend dir)) (or_no_folders (folders_of base))
    ++ majority_folders (map_option (filter scope.can_descend) (folders_of base))
        (map_option (filter scope.can_descend) published.folders) on_disk

unfoldable pub advance_baseline_for_paths :
    Option Manifest → Manifest → List Text → List Text → Option ScopePolicy → Manifest
unfolding advance_files
advance_baseline_for_paths previous published paths on_disk scope =
    let base = reconciled previous published scope in
    record published {
      files = advance_files published.files paths (files_of base);
      folders = some (advanced_folders base published on_disk scope);
    }

-- The paths of entries that are new, or whose hash is.
abbrev pub is_republished : Files → Text × ManifestEntry → Bool
is_republished before e = not (same_option (hash_of (entry_at before e.0)) (some e.1.hash))

abbrev pub is_missing : Files → Text → Bool
is_missing files path = elim (entry_at files path) [ none ↦ true | some e ↦ false ]

unfoldable pub published_delta : Option Manifest → Manifest → List Text
published_delta before after =
    unique_paths
      (map (λ e. e.0) (filter (is_republished (files_of before)) after.files)
        ++ filter (is_missing after.files) (keys (files_of before)))
      []

abbrev pub or_drawn : Text → Text → Text
or_drawn [] drawn = drawn
or_drawn (c ∷ s) drawn = c ∷ s

unfoldable pub advance_session_after_push :
    SessionState → CompareResult → Manifest → Option ScopePolicy → Text → SessionState
unfolding advance_baseline_for_paths published_delta
advance_session_after_push state result manifest scope drawn = record {
  device_id = or_drawn state.device_id drawn;
  device_name = state.device_name;
  vault_id = some manifest.vault_id;
  baseline = some (
      advance_baseline_for_paths state.baseline manifest (published_delta result.remote manifest)
        result.snapshot.empty_folders scope);
  hash_cache = result.updated_cache;
}

-- An entry of `null` is a file that went.
unfoldable pub merge_written_into_cache :
    List (Text × Option ManifestEntry) → Dict Text HashCacheEntry → Dict Text HashCacheEntry
merge_written_into_cache [] next = next
merge_written_into_cache ((path, none) ∷ written) next =
    merge_written_into_cache written (Dict.erase text_dec path next)
merge_written_into_cache ((path, some entry) ∷ written) next =
    let cached : HashCacheEntry = record {
      mtime = entry.mtime;
      size = entry.size;
      hash = entry.hash;
      scene = entry.scene;
    } in
    merge_written_into_cache written (Dict.insert text_dec path cached next)

unfoldable pub reset_session_state : SessionState → Text → SessionState
reset_session_state state drawn = record {
  device_id = or_drawn state.device_id drawn;
  device_name = state.device_name;
  vault_id = none;
  baseline = none;
  hash_cache = state.hash_cache;
}

-- `merged.delete(dir)` for the folders of the baseline that a side has not.
unfoldable pub drop_folders : List Text → List Text → List Text → List Text → List Text
drop_folders [] local remote merged = merged
drop_folders (dir ∷ dirs) local remote merged =
    if not (has_path dir local) || not (has_path dir remote)
    then drop_folders dirs local remote (filter (λ d. not (same d dir)) merged)
    else drop_folders dirs local remote merged

unfoldable pub merge_folder_arrays : Option (List Text) → List Text → List Text → List Text
unfolding drop_folders
merge_folder_arrays remote_folders local_folders baseline_folders =
    drop_folders baseline_folders local_folders (or_no_folders remote_folders)
      (unique_paths (or_no_folders remote_folders ++ local_folders) [])
