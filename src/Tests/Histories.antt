-- ===== src/Tests/Histories.antt =====
-- A vault published three times, its log, a replay and a collection of garbage.
use obsync.Base.{
  ◌≡◌, refl, true, false, Option, none, some, [], ◌∷◌, Text, codes, text_dec, ℕ_discrete,
}
use obsync.Base.Dict
use obsync.Base.Keys.{IsUnique}
use obsync.Sync.Types.{EFileKind, ManifestEntry, Files, entry_at, Manifest}
use obsync.Sync.Moves.{has_path}
use obsync.Spaces.Paths.{SnapshotEntry, HistoryLog}
use obsync.Sync.History.{diff_manifests, undo_changes, undo_changes_for_path, replay_to, same_kind}
use obsync.Sync.History.Undo.{undo_changes_for_path-undo_changes}
use obsync.Sync.History.Replay.{is_replayed}
use obsync.Sync.History.Publish.{prepend_snapshot}
use obsync.Sync.History.Published.{published_log, IsPublished, replay_to-published_log}
use obsync.Sync.History.Garbage.{GcInput, StorageReads, prune_log, collect_garbage}
use obsync.Sync.History.Sweep.{IsGarbage, collect_garbage-IsGarbage}

abbrev entry : Text → ManifestEntry
entry hash = record {
  hash = hash;
  size = 1;
  mtime = 2;
  kind = EFileKind.vault;
  live = none;
  by = none;
  scene = none;
}

abbrev published : Text → Option Text → Files → Manifest
published id parent files = record {
  version = 1;
  vault_id = codes "v";
  snapshot_id = id;
  parent_snapshot_id = parent;
  created_at = 3;
  device_id = codes "pc";
  device_name = none;
  files = files;
  folders = none;
  reset_generations = none;
  authors = none;
}

-- `a` was edited and `b` added, then `a` was deleted.
abbrev first : Manifest
first = published (codes "s1") none ((codes "a", entry (codes "1")) ∷ [])

abbrev second : Manifest
second =
    published (codes "s2") (some (codes "s1"))
      ((codes "b", entry (codes "2")) ∷ (codes "a", entry (codes "9")) ∷ [])

abbrev third : Manifest
third = published (codes "s3") (some (codes "s2")) ((codes "b", entry (codes "2")) ∷ [])

abbrev logged : Text → Option Text → SnapshotEntry
logged id parent = record {
  id = id;
  parent_id = parent;
  created_at = 3;
  device_id = codes "pc";
  device_name = none;
  pinned = false;
  label = none;
}

abbrev log : HistoryLog
log = record {
  version = 2;
  snapshots =
      logged (codes "s3") (some (codes "s2"))
      ∷ logged (codes "s2") (some (codes "s1"))
      ∷ logged (codes "s1") none
      ∷ [];
  changes =
      (codes "s1", diff_manifests none first)
      ∷ (codes "s2", diff_manifests (some first) second)
      ∷ (codes "s3", diff_manifests (some second) third)
      ∷ [];
}

second-IsUnique : IsUnique second.files
unfolding Dict.lookup text_dec ℕ_discrete
second-IsUnique = (refl, (refl, tt))

first-IsUnique : IsUnique first.files
unfolding Dict.lookup
first-IsUnique = (refl, tt)

third-IsUnique : IsUnique third.files
unfolding Dict.lookup
third-IsUnique = (refl, tt)

published_log_example : published_log (third ∷ second ∷ first ∷ []) ≡ log
unfolding prepend_snapshot text_dec ℕ_discrete Dict.insert
published_log_example = refl

all-IsPublished : IsPublished (third ∷ second ∷ first ∷ [])
unfolding text_dec ℕ_discrete
all-IsPublished = ((refl, third-IsUnique, refl), ((refl, second-IsUnique, refl), first-IsUnique))

-- The replay to the first snapshot answers it.
replay_to-published_log_example :
    is_replayed
      (codes "a")
      (some first)
      (replay_to third (published_log (third ∷ second ∷ first ∷ [])) (codes "s1"))
    ≡ true
unfolding text_dec ℕ_discrete
replay_to-published_log_example =
    replay_to-published_log third (second ∷ first ∷ []) (codes "s1") (codes "a") all-IsPublished

-- The test that the replay is about: `a` is back as it was.
replayed_a :
    (undo_changes
      (undo_changes third.files (diff_manifests (some second) third))
      (diff_manifests (some first) second))
    ≡ (codes "a", entry (codes "1")) ∷ []
unfolding undo_changes diff_manifests Dict.lookup Dict.insert Dict.erase text_dec ℕ_discrete
    same_kind
replayed_a = refl

undo_changes_for_path-undo_changes_example :
    undo_changes_for_path
      (entry_at second.files (codes "a"))
      (diff_manifests (some first) second)
      (codes "a")
    ≡ entry_at (undo_changes second.files (diff_manifests (some first) second)) (codes "a")
undo_changes_for_path-undo_changes_example =
    undo_changes_for_path-undo_changes (some first) second second.files (codes "a") first-IsUnique
      second-IsUnique

-- Two snapshots are evicted; no other device has touched the log.
abbrev collection : GcInput
collection = record { log = log; max_snapshots = some 1; head_manifest = third }

abbrev pruned : HistoryLog
pruned = prune_log (codes "s2" ∷ codes "s1" ∷ []) log

abbrev storage : StorageReads
storage = record {
  log = record { current = log; verify = pruned; last = pruned };
  read_pin = λ id. none;
  head = some (some third);
  pin_exists = λ id. false;
}

-- The content that the first snapshot alone had goes; that of `a` when it was deleted is kept.
deleted_hashes : (collect_garbage collection storage).deleted ≡ codes "1" ∷ []
unfolding collect_garbage diff_manifests Dict.lookup Dict.insert text_dec ℕ_discrete same_kind
deleted_hashes = refl

deleted_first : has_path (codes "1") (collect_garbage collection storage).deleted ≡ true
unfolding collect_garbage diff_manifests Dict.lookup Dict.insert text_dec ℕ_discrete same_kind
deleted_first = refl

collect_garbage-IsGarbage_example : IsGarbage collection storage (codes "1")
collect_garbage-IsGarbage_example =
    collect_garbage-IsGarbage collection storage (codes "1") deleted_first
