-- ===== src/Sync/History/Replay.antt =====
-- The replay of a history that describes what was published.
use obsync.Base.{
  ◌≡◌, refl, ap, ◌&&◌, suc, Bool, true, false, Option, none, some, List, [], ◌∷◌, Text, text_dec,
  same, same_iff, length, find?, Bool-cases, Option-cases, inl, inr,
}
use obsync.Base.Dict
use obsync.Base.Dict.{Dict}
use obsync.Base.Keys.{IsUnique}
use obsync.Sync.Types.{Files, entry_at, Manifest}
use obsync.Sync.Diff.{same_option}
use obsync.Spaces.Paths.{SnapshotEntry, SnapshotChanges, HistoryLog}
use obsync.Sync.History.{
  diff_manifests, undo_changes, contiguous_length, replay_from, replay_to, first_id,
}
use obsync.Sync.History.Undo.{is_same, is_same_refl, is_same-undo_changes}

-- Entries that describe manifests, both newest first: each has its manifest's id, names the next
-- entry as its parent, and its record is what changed since the next manifest.
abbrev pub IsHistory : Dict Text SnapshotChanges → List SnapshotEntry → List Manifest → Type 0
IsHistory changes (e ∷ []) (m ∷ []) = (e.id ≡ m.snapshot_id) × IsUnique m.files
IsHistory changes (e ∷ e' ∷ entries) (m ∷ m' ∷ manifests) =
    ((e.id ≡ m.snapshot_id) × IsUnique m.files)
    × ((e.parent_id ≡ some e'.id)
        × (Dict.lookup text_dec e.id changes ≡ some (diff_manifests (some m') m)))
    × IsHistory changes (e' ∷ entries) (m' ∷ manifests)
IsHistory changes _ _ = ⊥

pub same_refl : (a : Text) → same a a ≡ true
same_refl a = (same_iff a a).1 refl

IsUnique-first :
    (changes : Dict Text SnapshotChanges) (entries : List SnapshotEntry) (m : Manifest)
    (manifests : List Manifest)
    → IsHistory changes entries (m ∷ manifests)
    → IsUnique m.files
IsUnique-first changes [] m manifests h = elim h [ ]
IsUnique-first changes (e ∷ []) m [] h = h.1
IsUnique-first changes (e ∷ []) m (m' ∷ manifests) h = elim h [ ]
IsUnique-first changes (e ∷ e' ∷ entries) m [] h = elim h [ ]
IsUnique-first changes (e ∷ e' ∷ entries) m (m' ∷ manifests) h = h.0.1

contiguous_length-IsHistory :
    (changes : Dict Text SnapshotChanges) (entries : List SnapshotEntry) (manifests : List Manifest)
    → IsHistory changes entries manifests
    → contiguous_length entries ≡ length entries
contiguous_length-IsHistory changes [] manifests h = elim h [ ]
contiguous_length-IsHistory changes (e ∷ []) [] h = elim h [ ]
contiguous_length-IsHistory changes (e ∷ []) (m ∷ manifests) h = refl
contiguous_length-IsHistory changes (e ∷ e' ∷ entries) [] h = elim h [ ]
contiguous_length-IsHistory changes (e ∷ e' ∷ entries) (m ∷ []) h = elim h [ ]
contiguous_length-IsHistory changes (e ∷ e' ∷ entries) (m ∷ m' ∷ manifests) h = rw h.1.0 (
    rw (same_refl e'.id)
      (ap suc (contiguous_length-IsHistory changes (e' ∷ entries) (m' ∷ manifests) h.2)))

-- A replay answers a manifest as a history keeps it: with its id, and the same entries.
abbrev pub is_replayed : Text → Option Manifest → Option Manifest → Bool
is_replayed p none none = true
is_replayed p (some m) (some r) =
    same m.snapshot_id r.snapshot_id && is_same (entry_at m.files p) (entry_at r.files p)
is_replayed p _ _ = false

is_replayed-replay_from :
    (head : Manifest) (changes : Dict Text SnapshotChanges) (id : Text)
    (entries : List SnapshotEntry) (m : Manifest) (manifests : List Manifest) (files : Files)
    (p : Text)
    → IsHistory changes entries (m ∷ manifests)
    → is_same (entry_at m.files p) (entry_at files p) ≡ true
    → is_replayed p
        (find? (λ m. same m.snapshot_id id) (m ∷ manifests))
        (replay_from head changes id (length entries) entries files)
      ≡ true
is_replayed-replay_from head changes id [] m manifests files p h s = elim h [ ]
is_replayed-replay_from head changes id (e ∷ []) m (m' ∷ manifests) files p h s = elim h [ ]
is_replayed-replay_from head changes id (e ∷ e' ∷ entries) m [] files p h s = elim h [ ]
is_replayed-replay_from head changes id (e ∷ []) m [] files p h s =
    elim (Bool-cases (same m.snapshot_id id)) [
      | inl k ↦ rw (h.0, k) (rw (same_refl m.snapshot_id) s)
      | inr k ↦ elim (Option-cases (Dict.lookup text_dec m.snapshot_id changes)) [
        | inl n ↦ rw (h.0, k, n) refl
        | inr (c, n) ↦ rw (h.0, k, n) refl
      ]
    ]
is_replayed-replay_from head changes id (e ∷ e' ∷ entries) m (m' ∷ manifests) files p h s =
    let rest =
      is_replayed-replay_from head changes id (e' ∷ entries) m' manifests
        (undo_changes files (diff_manifests (some m') m)) p h.2
        (is_same-undo_changes (some m') m files p
          (IsUnique-first changes (e' ∷ entries) m' manifests h.2) h.0.1 s) in
    elim (Bool-cases (same m.snapshot_id id)) [
      | inl k ↦ rw (h.0.0, k) (rw (same_refl m.snapshot_id) s)
      | inr k ↦ rw (h.1.1, h.0.0, k) rest
    ]

first_id-IsHistory :
    (changes : Dict Text SnapshotChanges) (entries : List SnapshotEntry) (m : Manifest)
    (manifests : List Manifest)
    → IsHistory changes entries (m ∷ manifests)
    → same_option (first_id entries) (some m.snapshot_id) ≡ true
first_id-IsHistory changes [] m manifests h = elim h [ ]
first_id-IsHistory changes (e ∷ []) m [] h = rw h.0 (same_refl m.snapshot_id)
first_id-IsHistory changes (e ∷ []) m (m' ∷ manifests) h = elim h [ ]
first_id-IsHistory changes (e ∷ e' ∷ entries) m [] h = elim h [ ]
first_id-IsHistory changes (e ∷ e' ∷ entries) m (m' ∷ manifests) h =
    rw h.0.0 (same_refl m.snapshot_id)

-- When a log describes the manifests that were published, from the head on and newest first, the
-- replay to an id answers the newest of them that has it, with the same entry for each path up to
-- what a history does not compare; for an id that none of them has, it answers nothing.
pub replay_to-IsHistory :
    (head : Manifest) (older : List Manifest) (log : HistoryLog) (id p : Text)
    → IsHistory log.changes log.snapshots (head ∷ older)
    → is_replayed p (find? (λ m. same m.snapshot_id id) (head ∷ older)) (replay_to head log id)
      ≡ true
unfolding replay_to
replay_to-IsHistory head older log id p h =
    rw
      (
        first_id-IsHistory log.changes log.snapshots head older h,
        contiguous_length-IsHistory log.changes log.snapshots (head ∷ older) h,
      )
      (is_replayed-replay_from head log.changes id log.snapshots head older head.files p h
        (is_same_refl (entry_at head.files p)))
