-- ===== src/Sync/History/Garbage.antt =====
-- packages/plugin/src/sync/history/gc.ts and `updateHistoryLog` of store.ts: which objects of
-- evicted snapshots are deleted. What the storage answers is a record of values, one for each time
-- it is asked; a storage that throws ends the whole before anything is deleted.
use obsync.Base.{
  ℕ, min, max, Bool, true, false, not, ◌||◌, Option, none, some, List, [], ◌∷◌, ◌++◌, map, Text,
  text_dec, same, length, take, drop, filter, all, leb, if◌then◌else◌,
}
use obsync.Base.Dict
use obsync.Base.Dict.{Dict}
use obsync.Sync.Types.{Manifest}
use obsync.Sync.Moves.{has_path}
use obsync.Spaces.Paths.{SnapshotEntry, SnapshotChanges, HistoryLog}
use obsync.Sync.History.{collect_hashes, collect_change_hashes}

abbrev pub file_history_min_snapshots : ℕ
file_history_min_snapshots = 1

abbrev pub file_history_max_snapshots : ℕ
file_history_max_snapshots = 1000

-- `none` is a number that is not finite.
abbrev pub clamp_max_snapshots : Option ℕ → ℕ
clamp_max_snapshots none = file_history_min_snapshots
clamp_max_snapshots (some value) =
    max file_history_min_snapshots (min file_history_max_snapshots value)

-- The log as it is read first, after the first write and after the second.
pub record LogReads : Type 0 where
  pub current : HistoryLog
  pub verify : HistoryLog
  pub last : HistoryLog

pub record StorageReads : Type 0 where
  pub log : LogReads
  -- `readPinManifest`.
  pub read_pin : Text → Option Manifest
  -- The head, `some none` where no vault is published and `none` where the fetch failed.
  pub head : Option (Option Manifest)
  -- `storage.exists(pinKey(id))`.
  pub pin_exists : Text → Bool

pub record GcInput : Type 0 where
  pub log : HistoryLog
  pub max_snapshots : Option ℕ
  pub head_manifest : Manifest

-- The deleted objects by their hashes, in order, and what of the log was evicted and is still there:
-- the source reports the number of the first and the difference of the others.
pub record GcResult : Type 0 where
  pub log : HistoryLog
  pub writes : List HistoryLog
  pub deleted : List Text
  pub evicted : ℕ
  pub still_present : ℕ
  pub skipped_object_sweep : Bool

-- The log that is answered, and the logs that are written.
abbrev pub update_history_log :
    (HistoryLog → HistoryLog) → (HistoryLog → Bool) → LogReads → HistoryLog × List HistoryLog
update_history_log mutate survived reads =
    if survived reads.verify
    then (reads.verify, mutate reads.current ∷ [])
    else (reads.last, mutate reads.current ∷ mutate reads.verify ∷ [])

abbrev pub ids : List SnapshotEntry → List Text
ids entries = map (λ e. e.id) entries

abbrev pub outlives : List Text → SnapshotEntry → Bool
outlives evicted_ids e = not (has_path e.id evicted_ids) || e.pinned

abbrev pub prune_log : List Text → HistoryLog → HistoryLog
prune_log evicted_ids log =
    let snapshots = filter (outlives evicted_ids) log.snapshots in
    record log {
      snapshots = snapshots;
      changes = filter (λ c. has_path c.0 (ids snapshots)) log.changes;
    }

-- Hashes in use, and whether every record of them could be read.
pub record Live : Type 0 where
  pub hashes : List Text
  pub complete : Bool

abbrev pub add_record : Option SnapshotChanges → Live → Live
add_record none live = record live { complete = false }
add_record (some c) live = record live { hashes = collect_change_hashes c live.hashes }

-- The loop over the snapshots that are kept.
abbrev pub add_kept : List Text → Dict Text SnapshotChanges → List SnapshotEntry → Live → Live
add_kept kept changes [] live = live
add_kept kept changes (e ∷ entries) live =
    add_kept kept changes entries
      (if has_path e.id kept then add_record (Dict.lookup text_dec e.id changes) live else live)

abbrev pub add_pin : Option Manifest → Live → Live
add_pin none live = record live { complete = false }
add_pin (some m) live = record live { hashes = collect_hashes m.files live.hashes }

abbrev pub add_pinned_hashes : (Text → Option Manifest) → List SnapshotEntry → Live → Live
add_pinned_hashes read_pin [] live = live
add_pinned_hashes read_pin (e ∷ pinned) live =
    add_pinned_hashes read_pin pinned (add_pin (read_pin e.id) live)

abbrev pub add_evicted : Option SnapshotChanges → List Text → List Text
add_evicted none into = into
add_evicted (some c) into = collect_change_hashes c into

abbrev pub evicted_hashes : Dict Text SnapshotChanges → List SnapshotEntry → List Text → List Text
evicted_hashes changes [] into = into
evicted_hashes changes (e ∷ evicted) into =
    evicted_hashes changes evicted (add_evicted (Dict.lookup text_dec e.id changes) into)

abbrev pub pinned_among : (Text → Bool) → List Text → HistoryLog → List Text
pinned_among pin_exists evicted_ids log =
    filter (λ id. has_path id (ids (filter (λ e. e.pinned) log.snapshots)) || pin_exists id)
      evicted_ids

abbrev pub add_head : Option (Option Manifest) → List Text → List Text
add_head (some (some m)) into = collect_hashes m.files into
add_head _ into = into

abbrev pub is_head_unchanged : Option (Option Manifest) → Manifest → Bool
is_head_unchanged (some (some m)) head = same m.snapshot_id head.snapshot_id
is_head_unchanged _ head = false

abbrev pub pinned : GcInput → List SnapshotEntry
pinned x = filter (λ e. e.pinned) x.log.snapshots

abbrev pub non_pinned : GcInput → List SnapshotEntry
non_pinned x = filter (λ e. not e.pinned) x.log.snapshots

abbrev pub evicted : GcInput → List SnapshotEntry
evicted x = drop (clamp_max_snapshots x.max_snapshots) (non_pinned x)

abbrev pub kept_ids : GcInput → List Text
kept_ids x = ids (pinned x ++ take (clamp_max_snapshots x.max_snapshots) (non_pinned x))

-- What is in use before the log is pruned.
abbrev pub retained : GcInput → StorageReads → Live
retained x s = add_pinned_hashes s.read_pin (pinned x) (
    add_kept (kept_ids x) x.log.changes x.log.snapshots
      (record { hashes = collect_hashes x.head_manifest.files []; complete = true }))

abbrev pub swept : Bool → List Text → List Text → List Text
swept true evicted live = []
swept false evicted live = filter (λ hash. not (has_path hash live)) evicted

abbrev pub is_empty : List Text → Bool
is_empty [] = true
is_empty (x ∷ xs) = false

abbrev pub is_sweep_skipped : GcInput → StorageReads → HistoryLog → Bool
is_sweep_skipped x s next_log =
    not (retained x s).complete
    || not (is_head_unchanged s.head x.head_manifest)
    || not (is_empty (pinned_among s.pin_exists (ids (evicted x)) next_log))

abbrev pub updated_log : GcInput → StorageReads → HistoryLog × List HistoryLog
updated_log x s =
    update_history_log (prune_log (ids (evicted x)))
      (λ log. all (outlives (ids (evicted x))) log.snapshots) s.log

unfoldable pub collect_garbage : GcInput → StorageReads → GcResult
collect_garbage x s =
    let next = updated_log x s in
    let skipped = is_sweep_skipped x s next.0 in
    if leb (length (non_pinned x)) (clamp_max_snapshots x.max_snapshots)
    then (record {
      log = x.log;
      writes = [];
      deleted = [];
      evicted = 0;
      still_present = 0;
      skipped_object_sweep = false;
    })
    else (record {
      log = next.0;
      writes = next.1;
      deleted =
          swept skipped (evicted_hashes x.log.changes (evicted x) [])
            (add_head s.head (retained x s).hashes);
      evicted = length (evicted x);
      still_present = length (filter (λ e. has_path e.id (ids (evicted x))) next.0.snapshots);
      skipped_object_sweep = skipped;
    })
