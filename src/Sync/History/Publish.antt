-- ===== src/Sync/History/Publish.antt =====
-- packages/plugin/src/sync/history/publish.ts and `prependSnapshot` of store.ts: what a push adds to
-- the log.
use obsync.Base.{
  ℕ, suc, Bool, false, not, Option, none, some, List, [], ◌∷◌, ◌++◌, text_dec, same, take, drop,
  filter, if◌then◌else◌,
}
use obsync.Base.Dict
use obsync.Sync.Types.{Manifest}
use obsync.Sync.Diff.{same_option}
use obsync.Spaces.Paths.{SnapshotEntry, SnapshotChanges, HistoryLog}
use obsync.Sync.History.{diff_manifests}

abbrev pub history_log_version : ℕ
history_log_version = 2

-- `readHistoryLog` where nothing is stored.
abbrev pub new_log : HistoryLog
new_log = record { version = history_log_version; snapshots = []; changes = [] }

abbrev pub or_next : Option ℕ → Option ℕ
or_next none = none
or_next (some n) = some (suc n)

-- `findIndex`, with `none` for -1.
abbrev pub find_index {ℓ} : {A : Type ℓ} → (A → Bool) → List A → Option ℕ
find_index p [] = none
find_index p (x ∷ xs) = if p x then some 0 else or_next (find_index p xs)

abbrev pub place : Option ℕ → Option ℕ → ℕ
place (some parent_at) child_at = parent_at
place none (some child_at) = suc child_at
place none none = 0

unfoldable pub prepend_snapshot : HistoryLog → SnapshotEntry → SnapshotChanges → HistoryLog
prepend_snapshot log entry changes =
    let deduped = filter (λ s. not (same s.id entry.id)) log.snapshots in
    let at =
      place (find_index (λ s. same_option (some s.id) entry.parent_id) deduped)
        (find_index (λ s. same_option s.parent_id (some entry.id)) deduped) in
    record {
      version = history_log_version;
      snapshots = take at deduped ++ entry ∷ drop at deduped;
      changes = Dict.insert text_dec entry.id changes log.changes;
    }

abbrev pub entry_of : Manifest → SnapshotEntry
entry_of m = record {
  id = m.snapshot_id;
  parent_id = m.parent_snapshot_id;
  created_at = m.created_at;
  device_id = m.device_id;
  device_name = m.device_name;
  pinned = false;
  label = none;
}

-- The change of the log that a push makes, which `updateHistoryLog` applies to what it reads.
abbrev pub record_publish : Manifest → Option Manifest → HistoryLog → HistoryLog
record_publish manifest parent log =
    prepend_snapshot log (entry_of manifest) (diff_manifests parent manifest)
