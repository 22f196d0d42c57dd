-- ===== src/Sync/History/Published.antt =====
-- A log that pushes alone have written describes what was published.
use obsync.Base.{
  ◌≡◌, refl, ap, ap₂, subst, ◌∙◌, sym, not, true, false, none, some, List, [], ◌∷◌, arith, map,
  Text, text_dec, same, find?, filter,
}
use obsync.Base.Dict
use obsync.Base.Dict.{Dict}
use obsync.Base.Keys.{IsUnique}
use obsync.Sync.Types.{Manifest}
use obsync.Sync.Moves.{has_path}
use obsync.Spaces.Paths.{SnapshotEntry, SnapshotChanges, HistoryLog}
use obsync.Sync.History.{diff_manifests, replay_to}
use obsync.Sync.History.Replay.{IsHistory, is_replayed, replay_to-IsHistory, same_refl}
use obsync.Sync.History.Publish.{new_log, prepend_snapshot, entry_of, record_publish}

-- The log after each manifest of a list, newest first, was published on the one before it.
abbrev pub published_log : List Manifest → HistoryLog
published_log [] = new_log
published_log (m ∷ []) = record_publish m none new_log
published_log (m ∷ m' ∷ manifests) = record_publish m (some m') (published_log (m' ∷ manifests))

abbrev pub snapshot_ids : List Manifest → List Text
snapshot_ids manifests = map (λ m. m.snapshot_id) manifests

-- Each manifest names the one before it as its parent, has an id of its own and no path twice.
abbrev pub IsPublished : List Manifest → Type 0
IsPublished [] = Unit
IsPublished (m ∷ []) = IsUnique m.files
IsPublished (m ∷ m' ∷ manifests) =
    ((m.parent_snapshot_id ≡ some m'.snapshot_id)
      × IsUnique m.files
      × (has_path m.snapshot_id (snapshot_ids (m' ∷ manifests)) ≡ false))
    × IsPublished (m' ∷ manifests)

-- A record under an id that no entry has.
IsHistory-insert :
    (id : Text) (c : SnapshotChanges) (changes : Dict Text SnapshotChanges)
    (entries : List SnapshotEntry) (manifests : List Manifest)
    → has_path id (map (λ e. e.id) entries) ≡ false
    → IsHistory changes entries manifests
    → IsHistory (Dict.insert text_dec id c changes) entries manifests
IsHistory-insert id c changes [] manifests n h = elim h [ ]
IsHistory-insert id c changes (e ∷ []) [] n h = elim h [ ]
IsHistory-insert id c changes (e ∷ []) (m ∷ []) n h = h
IsHistory-insert id c changes (e ∷ []) (m ∷ m' ∷ manifests) n h = elim h [ ]
IsHistory-insert id c changes (e ∷ e' ∷ entries) [] n h = elim h [ ]
IsHistory-insert id c changes (e ∷ e' ∷ entries) (m ∷ []) n h = elim h [ ]
IsHistory-insert id c changes (e ∷ e' ∷ entries) (m ∷ m' ∷ manifests) n h = (
  h.0,
  (h.1.0, Dict.lookup-insert text_dec e.id id c changes ∙ ground (arith, n, h.1.1)),
  IsHistory-insert id c changes (e' ∷ entries) (m' ∷ manifests) (ground (arith, n)) h.2,
)

ids-IsHistory :
    (changes : Dict Text SnapshotChanges) (entries : List SnapshotEntry) (manifests : List Manifest)
    → IsHistory changes entries manifests
    → map (λ e. e.id) entries ≡ snapshot_ids manifests
ids-IsHistory changes [] manifests h = elim h [ ]
ids-IsHistory changes (e ∷ []) [] h = elim h [ ]
ids-IsHistory changes (e ∷ []) (m ∷ []) h = ap (λ t. t ∷ []) h.0
ids-IsHistory changes (e ∷ []) (m ∷ m' ∷ manifests) h = elim h [ ]
ids-IsHistory changes (e ∷ e' ∷ entries) [] h = elim h [ ]
ids-IsHistory changes (e ∷ e' ∷ entries) (m ∷ []) h = elim h [ ]
ids-IsHistory changes (e ∷ e' ∷ entries) (m ∷ m' ∷ manifests) h =
    ap₂ ◌∷◌ h.0.0 (ids-IsHistory changes (e' ∷ entries) (m' ∷ manifests) h.2)

filter-fresh :
    (id : Text) (entries : List SnapshotEntry)
    → has_path id (map (λ e. e.id) entries) ≡ false
    → filter (λ s. not (same s.id id)) entries ≡ entries
filter-fresh id [] n = refl
filter-fresh id (e ∷ entries) n =
    let parts : (same e.id id ≡ false) × (has_path id (map (λ e. e.id) entries) ≡ false) =
      ground arith in
    rw parts.0 (ap (◌∷◌ e) (filter-fresh id entries parts.1))

-- An entry whose parent stands first goes before it.
snapshots-prepend_snapshot :
    (log : HistoryLog) (first : SnapshotEntry) (rest : List SnapshotEntry) (entry : SnapshotEntry)
    (c : SnapshotChanges)
    → log.snapshots ≡ first ∷ rest
    → entry.parent_id ≡ some first.id
    → has_path entry.id (map (λ e. e.id) (first ∷ rest)) ≡ false
    → (prepend_snapshot log entry c).snapshots ≡ entry ∷ first ∷ rest
unfolding prepend_snapshot
snapshots-prepend_snapshot log first rest entry c e p n =
    rw (e, filter-fresh entry.id (first ∷ rest) n, p, same_refl first.id) refl

changes-prepend_snapshot :
    (log : HistoryLog) (entry : SnapshotEntry) (c : SnapshotChanges)
    → (prepend_snapshot log entry c).changes ≡ Dict.insert text_dec entry.id c log.changes
unfolding prepend_snapshot
changes-prepend_snapshot log entry c = refl

first-IsHistory :
    (changes : Dict Text SnapshotChanges) (entries : List SnapshotEntry) (m : Manifest)
    (manifests : List Manifest)
    → IsHistory changes entries (m ∷ manifests)
    → (first : SnapshotEntry) × (rest : List SnapshotEntry) × (entries ≡ first ∷ rest)
      × (first.id ≡ m.snapshot_id)
first-IsHistory changes [] m manifests h = elim h [ ]
first-IsHistory changes (e ∷ []) m [] h = (e, [], refl, h.0)
first-IsHistory changes (e ∷ []) m (m' ∷ manifests) h = elim h [ ]
first-IsHistory changes (e ∷ e' ∷ entries) m [] h = elim h [ ]
first-IsHistory changes (e ∷ e' ∷ entries) m (m' ∷ manifests) h = (e, e' ∷ entries, refl, h.0.0)

IsHistory-record_publish :
    (log : HistoryLog) (m m' : Manifest) (manifests : List Manifest)
    → IsHistory log.changes log.snapshots (m' ∷ manifests)
    → m.parent_snapshot_id ≡ some m'.snapshot_id
    → IsUnique m.files
    → has_path m.snapshot_id (snapshot_ids (m' ∷ manifests)) ≡ false
    → IsHistory
        (record_publish m (some m') log).changes
        (record_publish m (some m') log).snapshots
        (m ∷ m' ∷ manifests)
unfolding prepend_snapshot Dict.insert
IsHistory-record_publish log m m' manifests h p u n =
    let (first, rest, e, i) = first-IsHistory log.changes log.snapshots m' manifests h in
    let c = diff_manifests (some m') m in
    let h' : IsHistory log.changes (first ∷ rest) (m' ∷ manifests) =
      subst (λ s. IsHistory log.changes s (m' ∷ manifests)) e h in
    let n' : has_path m.snapshot_id (map (λ e. e.id) (first ∷ rest)) ≡ false =
      ap (has_path m.snapshot_id) (ids-IsHistory log.changes (first ∷ rest) (m' ∷ manifests) h')
      ∙ n in
    let q : m.parent_snapshot_id ≡ some first.id = p ∙ ap some (sym i) in
    rw
      (
        snapshots-prepend_snapshot log first rest (entry_of m) c e q n',
        changes-prepend_snapshot log (entry_of m) c,
      )
      (
        (refl, u),
        (q, Dict.lookup-insert text_dec m.snapshot_id m.snapshot_id c log.changes ∙ ground arith),
        IsHistory-insert m.snapshot_id c log.changes (first ∷ rest) (m' ∷ manifests) n' h',
      )

published_log-IsHistory :
    (m : Manifest) (manifests : List Manifest)
    → IsPublished (m ∷ manifests)
    → IsHistory
        (published_log (m ∷ manifests)).changes
        (published_log (m ∷ manifests)).snapshots
        (m ∷ manifests)
unfolding prepend_snapshot
published_log-IsHistory m [] p = (refl, p)
published_log-IsHistory m (m' ∷ manifests) p =
    IsHistory-record_publish (published_log (m' ∷ manifests)) m m' manifests
      (published_log-IsHistory m' manifests p.1) p.0.0 p.0.1 p.0.2

-- When manifests were published one after another, each naming the one before it, with an id of its
-- own and no path twice, the replay from the last one to an id answers the manifest that was
-- published under it, with the same entry for each path up to what a history does not compare; for
-- an id that none has, it answers nothing.
pub replay_to-published_log :
    (head : Manifest) (older : List Manifest) (id p : Text)
    → IsPublished (head ∷ older)
    → is_replayed p
        (find? (λ m. same m.snapshot_id id) (head ∷ older))
        (replay_to head (published_log (head ∷ older)) id)
      ≡ true
replay_to-published_log head older id p h =
    replay_to-IsHistory head older (published_log (head ∷ older)) id p
      (published_log-IsHistory head older h)
