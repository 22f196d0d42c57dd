-- ===== src/Tests/Vault.antt =====
-- The comparison of a small vault.
use obsync.Base.{
  true, ◌+◌, ◌≡◌, refl, not, ◌&&◌, ◌||◌, none, some, List, [], ◌∷◌, map, arith, Text, codes, All,
  leb, text_dec, ℕ_discrete,
}
use obsync.Base.Dict
use obsync.Relay.Revoked.{new_revoked, refuse}
use obsync.Relay.Revoked.History.{Event, run, expected, refuse-run}
use obsync.Sync.Moves.Whole.{AreApart, is_reached, has_path-with_moves}
use obsync.Sync.Moves.{with_moves}
use obsync.Sync.Types.{Move}
use obsync.Sync.Types.{Side, EFileKind, ManifestEntry, Files, Manifest, LocalSnapshot, SessionState}
use obsync.Sync.Pairing.{group_by, pair_groups, pair_group, group_from, Candidate, pair_up}
use obsync.Sync.Moves.{pair_moves, by_path, follow_remote, follow_local, unique_paths, has_path}
use obsync.Sync.Pairing.Pairs.{IsMatch, pair_up-IsMatch}
use obsync.Sync.Diff.{
  compare, visit, same_content, is_unreadable, add_local, add_remote, DiffInput, diff,
}
use obsync.Sync.Diff.Complete.{is_changed, is_in_scope, is_listed, diff-IsComplete}
use obsync.Sync.Diff.Safety.{IsSafe, diff-IsSafe}
use obsync.Sync.Baseline.{CompareResult, majority_folders, merge_folder_arrays}
use obsync.Sync.Baseline.Folders.{
  IsDistinct, one, has_path-majority_folders, has_path-merge_folder_arrays,
}
use obsync.Tests.Sample.{writer, reader, other}

abbrev entry : Text → ManifestEntry
entry hash = record {
  hash = hash;
  size = 1;
  mtime = 2;
  kind = EFileKind.vault;
  live = none;
  by = none;
  scene = none;
}

abbrev manifest : Text → Files → Manifest
manifest snapshot files = record {
  version = 1;
  vault_id = codes "v";
  snapshot_id = snapshot;
  parent_snapshot_id = none;
  created_at = 3;
  device_id = codes "pc";
  device_name = none;
  files = files;
  folders = some (codes "x" ∷ []);
  reset_generations = none;
  authors = none;
}

abbrev baseline : Manifest
baseline = manifest (codes "s1") (
    (codes "a", entry (codes "1"))
    ∷ (codes "b", entry (codes "2"))
    ∷ (codes "c", entry (codes "3"))
    ∷ [])

-- `a` was edited, `b` moved to `dir/b` there, and `c` edited here.
abbrev remote : Manifest
remote = manifest (codes "s2") (
    (codes "a", entry (codes "9"))
    ∷ (codes "c", entry (codes "3"))
    ∷ (codes "dir/b", entry (codes "2"))
    ∷ [])

abbrev snapshot : LocalSnapshot
snapshot = record {
  files =
      (codes "a", entry (codes "1"))
      ∷ (codes "b", entry (codes "2"))
      ∷ (codes "c", entry (codes "4"))
      ∷ [];
  skipped = [];
  empty_folders = codes "x" ∷ codes "y" ∷ [];
  ignored_paths = [];
  unreadable_dirs = [];
  unindexed = none;
}

abbrev input : DiffInput
input = record { local = snapshot; remote = some remote; baseline = some baseline; includes = none }

diff-IsSafe_example : IsSafe input (diff input)
diff-IsSafe_example = diff-IsSafe input

-- The edits are listed on their sides, and the rename there as a move.
compared_lists :
    (map (λ c. c.path) (diff input).local_changes ≡ codes "c" ∷ [])
    × (map (λ c. c.path) (diff input).remote_changes ≡ codes "a" ∷ codes "b" ∷ codes "dir/b" ∷ [])
    × ((diff input).moves
        ≡ record { from = codes "b"; to = codes "dir/b"; side = Side.remote } ∷ [])
unfolding diff compare visit same_content is_unreadable add_local add_remote pair_moves pair_up
    pair_groups pair_group group_by group_from by_path follow_remote follow_local unique_paths
    Dict.lookup Dict.insert text_dec ℕ_discrete
compared_lists = (refl, refl, refl)

-- A path of the remote alone, found in the scope.
moved_scope : is_in_scope input (codes "dir/b") ≡ true
unfolding Dict.lookup text_dec ℕ_discrete
moved_scope = refl

moved_changed : is_changed input (codes "dir/b") ≡ true
unfolding same_content is_unreadable Dict.lookup text_dec ℕ_discrete
moved_changed = refl

diff-IsComplete_example : is_listed (codes "dir/b") (diff input) ≡ true
diff-IsComplete_example = diff-IsComplete input (codes "dir/b") moved_scope moved_changed

abbrev gone : List Candidate
gone =
    record { path = codes "b"; hash = codes "2" }
    ∷ record { path = codes "e"; hash = codes "5" }
    ∷ []

abbrev fresh : List Candidate
fresh = record { path = codes "dir/b"; hash = codes "2" } ∷ []

pair_up-IsMatch_example : All (IsMatch gone fresh) (pair_up gone fresh)
pair_up-IsMatch_example = pair_up-IsMatch gone fresh

abbrev session : SessionState
session = record {
  device_id = codes "pc";
  device_name = none;
  vault_id = some (codes "v");
  baseline = some baseline;
  hash_cache = [];
}

abbrev compared : CompareResult
compared = record {
  snapshot = snapshot;
  remote = some remote;
  diff = diff input;
  updated_cache = [];
}

-- The remote with the local edit of `c`.
abbrev pushed : Manifest
pushed = manifest (codes "s3") (
    (codes "a", entry (codes "9"))
    ∷ (codes "c", entry (codes "4"))
    ∷ (codes "dir/b", entry (codes "2"))
    ∷ [])

distinct : IsDistinct (codes "x" ∷ codes "y" ∷ [])
unfolding text_dec ℕ_discrete
distinct = (refl, (refl, tt))

has_path-majority_folders_example :
    has_path
      (codes "y")
      (majority_folders (some (codes "x" ∷ [])) none (codes "x" ∷ codes "y" ∷ []))
    ≡ leb 2 (
        one (has_path (codes "y") (codes "x" ∷ []))
        + (one (has_path (codes "y") []) + one (has_path (codes "y") (codes "x" ∷ codes "y" ∷ []))))
has_path-majority_folders_example =
    has_path-majority_folders (some (codes "x" ∷ [])) none (codes "x" ∷ codes "y" ∷ []) (codes "y")
      (refl, tt) tt distinct

has_path-merge_folder_arrays_example :
    has_path
      (codes "x")
      (merge_folder_arrays (some (codes "x" ∷ [])) (codes "y" ∷ []) (codes "x" ∷ []))
    ≡ ((has_path (codes "x") (codes "x" ∷ []) || has_path (codes "x") (codes "y" ∷ []))
        && (not (has_path (codes "x") (codes "x" ∷ []))
            || (has_path (codes "x") (codes "y" ∷ []) && has_path (codes "x") (codes "x" ∷ []))))
has_path-merge_folder_arrays_example =
    has_path-merge_folder_arrays (some (codes "x" ∷ [])) (codes "y" ∷ []) (codes "x" ∷ [])
      (codes "x")

abbrev events : List Event
events = Event.revokes (codes "g1") 10 ∷ Event.closes other ∷ Event.revokes (codes "g9") 400000 ∷ []

refuse-run_example :
    refuse (some writer ∷ some reader ∷ none ∷ []) 400020 (run events new_revoked)
    ≡ map (expected events 400020) (some writer ∷ some reader ∷ none ∷ [])
refuse-run_example =
    refuse-run (some writer ∷ some reader ∷ none ∷ []) events 400020
      (omega arith, (omega arith, omega arith))

abbrev moves : List Move
moves =
    record { from = codes "b"; to = codes "dir/b"; side = Side.remote }
    ∷ record { from = codes "e"; to = codes "f"; side = Side.local }
    ∷ []

moves-AreApart : AreApart moves
unfolding text_dec ℕ_discrete
moves-AreApart = ((refl, refl), ((refl, refl), tt))

has_path-with_moves_example : has_path (codes "b") (with_moves (codes "dir/b" ∷ []) moves) ≡ (
    has_path (codes "b") (codes "dir/b" ∷ []) || is_reached (codes "b") (codes "dir/b" ∷ []) moves)
has_path-with_moves_example =
    has_path-with_moves (codes "dir/b" ∷ []) moves (codes "b") moves-AreApart
