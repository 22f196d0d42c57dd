-- ===== src/Sync/History/Undo.antt =====
-- A snapshot's changes undone give its parent.
use obsync.Base.{
  ◌≡◌, refl, ap, ◌∙◌, Bool, true, false, Option, none, some, List, [], ◌∷◌, arith, Text, text_dec,
  Bool-cases, inl, inr,
}
use obsync.Base.Dict
use obsync.Base.Keys.{IsUnique}
use obsync.Sync.Types.{EFileKind, ManifestEntry, Files, entry_at, Manifest}
use obsync.Sync.Diff.{files_of}
use obsync.Spaces.Paths.{FileChange, SnapshotChanges}
use obsync.Sync.History.{
  same_kind, same_entry, diff_manifests, erase_added, put_from, put_deleted, undo_changes, or_entry,
  undo_at, undo_changes_for_path,
}
use obsync.Sync.History.Changes.{
  added_at, modified_at, deleted_at, AreUnique, AreUnique-diff_manifests, added-diff_manifests,
  modified-diff_manifests, deleted-diff_manifests,
}

abbrev erased_at : Option ManifestEntry → Option ManifestEntry → Option ManifestEntry
erased_at none entry = entry
erased_at (some e) entry = none

entry_at-erase_added :
    (added files : Files) (p : Text)
    → entry_at (erase_added added files) p ≡ erased_at (entry_at added p) (entry_at files p)
unfolding Dict.lookup
entry_at-erase_added [] files p = refl
entry_at-erase_added ((k, e) ∷ added) files p =
    entry_at-erase_added added (Dict.erase text_dec k files) p
    ∙ (rw (Dict.lookup-erase text_dec p k files) (ground (arith, entry_at added p)))

abbrev from_at : Option FileChange → Option ManifestEntry → Option ManifestEntry
from_at none entry = entry
from_at (some change) entry = some change.from

entry_at-put_from :
    (modified : List (Text × FileChange)) (files : Files) (p : Text)
    → IsUnique modified
    → entry_at (put_from modified files) p
      ≡ from_at (Dict.lookup text_dec p modified) (entry_at files p)
unfolding Dict.lookup
entry_at-put_from [] files p u = refl
entry_at-put_from ((k, c) ∷ modified) files p u =
    entry_at-put_from modified (Dict.insert text_dec k c.from files) p u.1
    ∙ (rw (Dict.lookup-insert text_dec p k c.from files)
        (ground (arith, u.0, ap (λ q. Dict.lookup text_dec q modified))))

entry_at-put_deleted :
    (deleted files : Files) (p : Text)
    → IsUnique deleted
    → entry_at (put_deleted deleted files) p ≡ or_entry (entry_at deleted p) (entry_at files p)
unfolding Dict.lookup
entry_at-put_deleted [] files p u = refl
entry_at-put_deleted ((k, e) ∷ deleted) files p u =
    entry_at-put_deleted deleted (Dict.insert text_dec k e files) p u.1
    ∙ (rw (Dict.lookup-insert text_dec p k e files) (ground (arith, u.0, ap (entry_at deleted))))

entry_at-undo_changes :
    (files : Files) (c : SnapshotChanges) (p : Text)
    → AreUnique c
    → entry_at (undo_changes files c) p
      ≡ or_entry (entry_at c.deleted p) (
          from_at
            (Dict.lookup text_dec p c.modified)
            (erased_at (entry_at c.added p) (entry_at files p)))
unfolding undo_changes AreUnique
entry_at-undo_changes files c p u =
    entry_at-put_deleted c.deleted _ p u.1
    ∙ ap (or_entry (entry_at c.deleted p)) (
        entry_at-put_from c.modified _ p u.0
        ∙ ap (from_at (Dict.lookup text_dec p c.modified)) (entry_at-erase_added c.added files p))

-- Equal in all that a history compares.
abbrev pub is_same : Option ManifestEntry → Option ManifestEntry → Bool
is_same none none = true
is_same (some a) (some b) = same_entry a b
is_same _ _ = false

same_kind_refl : (k : EFileKind) → same_kind k k ≡ true
unfolding same_kind
same_kind_refl EFileKind.vault = refl
same_kind_refl EFileKind.config = refl
same_kind_refl EFileKind.plugin = refl

same_kind_trans :
    (k l m : EFileKind) → same_kind k l ≡ true → same_kind l m ≡ true → same_kind k m ≡ true
unfolding same_kind
same_kind_trans EFileKind.vault EFileKind.vault m h j = j
same_kind_trans EFileKind.vault EFileKind.config m h j = ground arith
same_kind_trans EFileKind.vault EFileKind.plugin m h j = ground arith
same_kind_trans EFileKind.config EFileKind.vault m h j = ground arith
same_kind_trans EFileKind.config EFileKind.config m h j = j
same_kind_trans EFileKind.config EFileKind.plugin m h j = ground arith
same_kind_trans EFileKind.plugin EFileKind.vault m h j = ground arith
same_kind_trans EFileKind.plugin EFileKind.config m h j = ground arith
same_kind_trans EFileKind.plugin EFileKind.plugin m h j = j

pub same_entry_refl : (a : ManifestEntry) → same_entry a a ≡ true
same_entry_refl a = ground (arith, same_kind_refl a.kind)

pub is_same_refl : (b : Option ManifestEntry) → is_same b b ≡ true
is_same_refl none = refl
is_same_refl (some b) = same_entry_refl b

same_entry_trans :
    (a b c : ManifestEntry) → same_entry a b ≡ true → same_entry b c ≡ true → same_entry a c ≡ true
same_entry_trans a b c h k = ground (arith, same_kind_trans a.kind b.kind c.kind)

-- Undone in entries `f` that are the same as those after the changes.
is_same-undone :
    (b e f : Option ManifestEntry)
    → is_same e f ≡ true
    → is_same b (
        or_entry
          (deleted_at b e none)
          (from_at (modified_at b e none) (erased_at (added_at b e none) f)))
      ≡ true
is_same-undone none none none h = refl
is_same-undone none none (some f) h = ground arith
is_same-undone none (some e) f h = refl
is_same-undone (some b) none f h = same_entry_refl b
is_same-undone (some b) (some e) none h = ground arith
is_same-undone (some b) (some e) (some f) h = elim (Bool-cases (same_entry b e)) [
  | inl k ↦ rw k (same_entry_trans b e f k h)
  | inr k ↦ rw k (same_entry_refl b)
]

-- Undoing the changes from one manifest to the next, in files that are the same as those of the
-- next, gives each path what it had in the first, when no manifest has a path twice.
pub is_same-undo_changes :
    (parent : Option Manifest) (next : Manifest) (files : Files) (p : Text)
    → IsUnique (files_of parent)
    → IsUnique next.files
    → is_same (entry_at next.files p) (entry_at files p) ≡ true
    → is_same
        (entry_at (files_of parent) p)
        (entry_at (undo_changes files (diff_manifests parent next)) p)
      ≡ true
is_same-undo_changes parent next files p u v h =
    rw
      (
        entry_at-undo_changes files (diff_manifests parent next) p
            (AreUnique-diff_manifests parent next),
        added-diff_manifests parent next p u v,
        modified-diff_manifests parent next p u v,
        deleted-diff_manifests parent next p u v,
      )
      (is_same-undone (entry_at (files_of parent) p) (entry_at next.files p) (entry_at files p) h)

undo_at-lists :
    (b e f : Option ManifestEntry)
    → undo_at (added_at b e none) (modified_at b e none) (deleted_at b e none) f
      ≡ or_entry
          (deleted_at b e none)
          (from_at (modified_at b e none) (erased_at (added_at b e none) f))
undo_at-lists none none f = refl
undo_at-lists none (some e) f = refl
undo_at-lists (some b) none f = refl
undo_at-lists (some b) (some e) f = elim (Bool-cases (same_entry b e)) [
  | inl h ↦ rw h refl
  | inr h ↦ rw h refl
]

-- Undoing the changes between two manifests for one path alone is undoing them in all files, when no
-- manifest has a path twice.
pub undo_changes_for_path-undo_changes :
    (parent : Option Manifest) (next : Manifest) (files : Files) (p : Text)
    → IsUnique (files_of parent)
    → IsUnique next.files
    → undo_changes_for_path (entry_at files p) (diff_manifests parent next) p
      ≡ entry_at (undo_changes files (diff_manifests parent next)) p
unfolding undo_changes_for_path
undo_changes_for_path-undo_changes parent next files p u v =
    rw
      (
        entry_at-undo_changes files (diff_manifests parent next) p
            (AreUnique-diff_manifests parent next),
        added-diff_manifests parent next p u v,
        modified-diff_manifests parent next p u v,
        deleted-diff_manifests parent next p u v,
      )
      (undo_at-lists (entry_at (files_of parent) p) (entry_at next.files p) (entry_at files p))
