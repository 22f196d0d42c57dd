-- ===== src/Sync/History/Changes.antt =====
-- What the lists of a snapshot's changes have for each path.
use obsync.Base.{
  ◌≡◌, refl, ap, ◌∙◌, Option, none, some, [], ◌∷◌, arith, Text, text_dec, same, if◌then◌else◌,
  Option-cases, Bool-cases, inl, inr,
}
use obsync.Base.Dict
use obsync.Base.Keys.{IsUnique, insert-IsUnique}
use obsync.Sync.Types.{ManifestEntry, Files, entry_at, Manifest}
use obsync.Sync.Diff.{files_of}
use obsync.Spaces.Paths.{FileChange, SnapshotChanges}
use obsync.Sync.History.{
  same_entry, add_change, add_changes, add_deletion, add_deletions, diff_manifests,
}

-- What one path's entries before and after put into each list, over what is there.
abbrev pub added_at :
    Option ManifestEntry → Option ManifestEntry → Option ManifestEntry → Option ManifestEntry
added_at none (some e) rest = some e
added_at _ _ rest = rest

abbrev pub modified_at :
    Option ManifestEntry → Option ManifestEntry → Option FileChange → Option FileChange
modified_at (some b) (some e) rest =
    if same_entry b e then rest else some (record { from = b; to = e })
modified_at _ _ rest = rest

abbrev pub deleted_at :
    Option ManifestEntry → Option ManifestEntry → Option ManifestEntry → Option ManifestEntry
deleted_at (some b) none rest = some b
deleted_at _ _ rest = rest

added-add_change :
    (k : Text) (e : ManifestEntry) (before : Option ManifestEntry) (c : SnapshotChanges) (p : Text)
    → entry_at (add_change k e before c).added p
      ≡ (if same k p then added_at before (some e) (entry_at c.added p) else entry_at c.added p)
added-add_change k e none c p = rw (Dict.lookup-insert text_dec p k e c.added) (ground arith)
added-add_change k e (some b) c p = ground arith

added-add_changes :
    (parent files : Files) (c : SnapshotChanges) (p : Text)
    → IsUnique files
    → entry_at (add_changes parent files c).added p
      ≡ added_at (entry_at parent p) (entry_at files p) (entry_at c.added p)
unfolding Dict.lookup
added-add_changes parent [] c p u = ground arith
added-add_changes parent ((k, e) ∷ files) c p u =
    added-add_changes parent files (add_change k e (entry_at parent k) c) p u.1
    ∙ (rw (added-add_change k e (entry_at parent k) c p)
        (ground (arith, u.0, ap (entry_at parent), ap (entry_at files))))

modified-add_change :
    (k : Text) (e : ManifestEntry) (before : Option ManifestEntry) (c : SnapshotChanges) (p : Text)
    → Dict.lookup text_dec p (add_change k e before c).modified ≡ (
        if same k p
        then modified_at before (some e) (Dict.lookup text_dec p c.modified)
        else Dict.lookup text_dec p c.modified)
modified-add_change k e none c p = ground arith
modified-add_change k e (some b) c p = elim (Bool-cases (same_entry b e)) [
  | inl h ↦ rw h (ground arith)
  | inr h ↦
      rw (h, Dict.lookup-insert text_dec p k (record { from = b; to = e }) c.modified)
        (ground arith)
]

modified-add_changes :
    (parent files : Files) (c : SnapshotChanges) (p : Text)
    → IsUnique files
    → Dict.lookup text_dec p (add_changes parent files c).modified
      ≡ modified_at (entry_at parent p) (entry_at files p) (Dict.lookup text_dec p c.modified)
unfolding Dict.lookup
modified-add_changes parent [] c p u = ground arith
modified-add_changes parent ((k, e) ∷ files) c p u =
    modified-add_changes parent files (add_change k e (entry_at parent k) c) p u.1
    ∙ (rw (modified-add_change k e (entry_at parent k) c p)
        (ground (arith, u.0, ap (entry_at parent), ap (entry_at files))))

deleted-add_deletion :
    (k : Text) (e : ManifestEntry) (after : Option ManifestEntry) (c : SnapshotChanges) (p : Text)
    → entry_at (add_deletion k e after c).deleted p ≡ (
        if same k p then deleted_at (some e) after (entry_at c.deleted p) else entry_at c.deleted p)
deleted-add_deletion k e none c p = rw (Dict.lookup-insert text_dec p k e c.deleted) (ground arith)
deleted-add_deletion k e (some b) c p = ground arith

deleted-add_deletions :
    (next files : Files) (c : SnapshotChanges) (p : Text)
    → IsUnique files
    → entry_at (add_deletions next files c).deleted p
      ≡ deleted_at (entry_at files p) (entry_at next p) (entry_at c.deleted p)
unfolding Dict.lookup
deleted-add_deletions next [] c p u = ground arith
deleted-add_deletions next ((k, e) ∷ files) c p u =
    deleted-add_deletions next files (add_deletion k e (entry_at next k) c) p u.1
    ∙ (rw (deleted-add_deletion k e (entry_at next k) c p)
        (ground (arith, u.0, ap (entry_at next), ap (entry_at files))))

-- Each list names a path once.
unfoldable pub AreUnique : SnapshotChanges → Type 0
AreUnique c = IsUnique c.modified × IsUnique c.deleted

AreUnique-add_change :
    (k : Text) (e : ManifestEntry) (before : Option ManifestEntry) (c : SnapshotChanges)
    → AreUnique c
    → AreUnique (add_change k e before c)
unfolding AreUnique
AreUnique-add_change k e none c u = u
AreUnique-add_change k e (some b) c u = elim (Bool-cases (same_entry b e)) [
  | inl h ↦ rw h u
  | inr h ↦ rw h ((insert-IsUnique k (record { from = b; to = e }) c.modified u.0, u.1))
]

AreUnique-add_changes :
    (parent files : Files) (c : SnapshotChanges)
    → AreUnique c
    → AreUnique (add_changes parent files c)
AreUnique-add_changes parent [] c u = u
AreUnique-add_changes parent ((k, e) ∷ files) c u =
    AreUnique-add_changes parent files (add_change k e (entry_at parent k) c)
      (AreUnique-add_change k e (entry_at parent k) c u)

AreUnique-add_deletion :
    (k : Text) (e : ManifestEntry) (after : Option ManifestEntry) (c : SnapshotChanges)
    → AreUnique c
    → AreUnique (add_deletion k e after c)
unfolding AreUnique
AreUnique-add_deletion k e none c u = (u.0, insert-IsUnique k e c.deleted u.1)
AreUnique-add_deletion k e (some b) c u = u

AreUnique-add_deletions :
    (next files : Files) (c : SnapshotChanges)
    → AreUnique c
    → AreUnique (add_deletions next files c)
AreUnique-add_deletions next [] c u = u
AreUnique-add_deletions next ((k, e) ∷ files) c u =
    AreUnique-add_deletions next files (add_deletion k e (entry_at next k) c)
      (AreUnique-add_deletion k e (entry_at next k) c u)

-- The first loop touches no deletion, and the second nothing else.
same-add_changes :
    (parent files : Files) (c : SnapshotChanges) → (add_changes parent files c).deleted ≡ c.deleted
same-add_changes parent [] c = refl
same-add_changes parent ((k, e) ∷ files) c =
    same-add_changes parent files (add_change k e (entry_at parent k) c)
    ∙ (elim (Option-cases (entry_at parent k)) [
      | inl h ↦ rw h refl
      | inr (b, h) ↦ rw h (ground arith)
    ])

same-add_deletions :
    (next files : Files) (c : SnapshotChanges)
    → ((add_deletions next files c).added ≡ c.added)
      × ((add_deletions next files c).modified ≡ c.modified)
same-add_deletions next [] c = (refl, refl)
same-add_deletions next ((k, e) ∷ files) c =
    let rest = same-add_deletions next files (add_deletion k e (entry_at next k) c) in
    elim (Option-cases (entry_at next k)) [
      | inl h ↦ (rest.0 ∙ (rw h refl), rest.1 ∙ (rw h refl))
      | inr (b, h) ↦ (rest.0 ∙ (rw h refl), rest.1 ∙ (rw h refl))
    ]

module _ (parent : Option Manifest) (next : Manifest) where
  pub AreUnique-diff_manifests : AreUnique (diff_manifests parent next)
  unfolding diff_manifests AreUnique
  AreUnique-diff_manifests =
      AreUnique-add_deletions next.files (files_of parent)
        (add_changes (files_of parent) next.files
          (record { added = []; modified = []; deleted = [] }))
        (AreUnique-add_changes (files_of parent) next.files
          (record { added = []; modified = []; deleted = [] }) (tt, tt))

  module _ (p : Text) (u : IsUnique (files_of parent)) (v : IsUnique next.files) where
    pub added-diff_manifests :
        entry_at (diff_manifests parent next).added p
        ≡ added_at (entry_at (files_of parent) p) (entry_at next.files p) none
    unfolding diff_manifests Dict.lookup
    added-diff_manifests =
        ap (λ m. entry_at m p)
          (same-add_deletions next.files (files_of parent)
            (add_changes (files_of parent) next.files _)).0
        ∙ added-add_changes (files_of parent) next.files _ p v

    pub modified-diff_manifests :
        Dict.lookup text_dec p (diff_manifests parent next).modified
        ≡ modified_at (entry_at (files_of parent) p) (entry_at next.files p) none
    unfolding diff_manifests Dict.lookup
    modified-diff_manifests =
        ap (Dict.lookup text_dec p)
          (same-add_deletions next.files (files_of parent)
            (add_changes (files_of parent) next.files _)).1
        ∙ modified-add_changes (files_of parent) next.files _ p v

    pub deleted-diff_manifests :
        entry_at (diff_manifests parent next).deleted p
        ≡ deleted_at (entry_at (files_of parent) p) (entry_at next.files p) none
    unfolding diff_manifests Dict.lookup
    deleted-diff_manifests =
        deleted-add_deletions next.files (files_of parent) _ p u
        ∙ ap (λ m. deleted_at (entry_at (files_of parent) p) (entry_at next.files p) (entry_at m p))
            (same-add_changes (files_of parent) next.files _)
