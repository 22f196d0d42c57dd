-- ===== src/Sync/History/Hashes.antt =====
-- Which hashes a manifest, a record and the sets of hashes name.
use obsync.Base.{
  ◌≡◌, refl, ◌∙◌, Bool, true, false, not, ◌&&◌, ◌||◌, Option, none, some, List, [], ◌∷◌, map, arith,
  Text, text_dec, any, all, Bool-cases, inl, inr,
}
use obsync.Base.Dict
use obsync.Base.Dict.{Dict}
use obsync.Sync.Types.{Files, Manifest}
use obsync.Sync.Moves.{has_path}
use obsync.Sync.Moves.Paths.{has_path-add_path}
use obsync.Spaces.Paths.{FileChange, SnapshotEntry, SnapshotChanges}
use obsync.Sync.History.{collect_hashes, collect_both, collect_change_hashes}
use obsync.Sync.History.Garbage.{
  Live, add_record, add_kept, add_pin, add_pinned_hashes, add_evicted, evicted_hashes, add_head,
}

abbrev pub names_hash : Text → Files → Bool
names_hash h files = has_path h (map (λ f. f.1.hash) files)

abbrev pub changes_name : Text → SnapshotChanges → Bool
changes_name h c =
    names_hash h c.added
    || (has_path h (map (λ f. f.1.from.hash) c.modified)
        || has_path h (map (λ f. f.1.to.hash) c.modified))
    || names_hash h c.deleted

abbrev pub record_names : Text → Option SnapshotChanges → Bool
record_names h none = false
record_names h (some c) = changes_name h c

abbrev pub manifest_names : Text → Option Manifest → Bool
manifest_names h none = false
manifest_names h (some m) = names_hash h m.files

abbrev pub is_some {ℓ} : {A : Type ℓ} → Option A → Bool
is_some none = false
is_some (some a) = true

module _ (h : Text) where
  has_path-collect_hashes :
      (files : Files) (into : List Text)
      → has_path h (collect_hashes files into) ≡ (has_path h into || names_hash h files)
  has_path-collect_hashes [] into = ground arith
  has_path-collect_hashes ((path, e) ∷ files) into =
      has_path-collect_hashes files _ ∙ (rw (has_path-add_path h e.hash into) (ground arith))

  has_path-collect_both :
      (modified : List (Text × FileChange)) (into : List Text)
      → has_path h (collect_both modified into) ≡ (
          has_path h into
          || (has_path h (map (λ f. f.1.from.hash) modified)
              || has_path h (map (λ f. f.1.to.hash) modified)))
  has_path-collect_both [] into = ground arith
  has_path-collect_both ((path, c) ∷ modified) into =
      has_path-collect_both modified _
      ∙ (rw (has_path-add_path h c.to.hash _, has_path-add_path h c.from.hash into) (ground arith))

  has_path-collect_change_hashes :
      (c : SnapshotChanges) (into : List Text)
      → has_path h (collect_change_hashes c into) ≡ (has_path h into || changes_name h c)
  has_path-collect_change_hashes c into =
      has_path-collect_hashes c.deleted _
      ∙ (rw (has_path-collect_both c.modified _, has_path-collect_hashes c.added into)
          (ground arith))

  has_path-add_record :
      (r : Option SnapshotChanges) (live : Live)
      → has_path h (add_record r live).hashes ≡ (has_path h live.hashes || record_names h r)
  has_path-add_record none live = ground arith
  has_path-add_record (some c) live = has_path-collect_change_hashes c live.hashes

  pub has_path-add_kept :
      (kept : List Text) (changes : Dict Text SnapshotChanges) (entries : List SnapshotEntry)
      (live : Live)
      → has_path h (add_kept kept changes entries live).hashes ≡ (
          has_path h live.hashes
          || any
              (λ e. has_path e.id kept && record_names h (Dict.lookup text_dec e.id changes))
              entries)
  has_path-add_kept kept changes [] live = ground arith
  has_path-add_kept kept changes (e ∷ entries) live =
      has_path-add_kept kept changes entries _ ∙ (elim (Bool-cases (has_path e.id kept)) [
        | inl k ↦
            rw (k, has_path-add_record (Dict.lookup text_dec e.id changes) live) (ground arith)
        | inr k ↦ rw k refl
      ])

  has_path-add_pin :
      (m : Option Manifest) (live : Live)
      → has_path h (add_pin m live).hashes ≡ (has_path h live.hashes || manifest_names h m)
  has_path-add_pin none live = ground arith
  has_path-add_pin (some m) live = has_path-collect_hashes m.files live.hashes

  pub has_path-add_pinned_hashes :
      (read_pin : Text → Option Manifest) (pinned : List SnapshotEntry) (live : Live)
      → has_path h (add_pinned_hashes read_pin pinned live).hashes
        ≡ (has_path h live.hashes || any (λ e. manifest_names h (read_pin e.id)) pinned)
  has_path-add_pinned_hashes read_pin [] live = ground arith
  has_path-add_pinned_hashes read_pin (e ∷ pinned) live =
      has_path-add_pinned_hashes read_pin pinned _
      ∙ (rw (has_path-add_pin (read_pin e.id) live) (ground arith))

  has_path-add_evicted :
      (r : Option SnapshotChanges) (into : List Text)
      → has_path h (add_evicted r into) ≡ (has_path h into || record_names h r)
  has_path-add_evicted none into = ground arith
  has_path-add_evicted (some c) into = has_path-collect_change_hashes c into

  pub has_path-evicted_hashes :
      (changes : Dict Text SnapshotChanges) (evicted : List SnapshotEntry) (into : List Text)
      → has_path h (evicted_hashes changes evicted into)
        ≡ (has_path h into || any (λ e. record_names h (Dict.lookup text_dec e.id changes)) evicted)
  has_path-evicted_hashes changes [] into = ground arith
  has_path-evicted_hashes changes (e ∷ evicted) into =
      has_path-evicted_hashes changes evicted _
      ∙ (rw (has_path-add_evicted (Dict.lookup text_dec e.id changes) into) (ground arith))

  pub has_path-add_head :
      (m : Manifest) (into : List Text)
      → has_path h (add_head (some (some m)) into) ≡ (has_path h into || names_hash h m.files)
  has_path-add_head m into = has_path-collect_hashes m.files into

  pub has_path-head : (files : Files) → has_path h (collect_hashes files []) ≡ names_hash h files
  has_path-head files = has_path-collect_hashes files []

complete-add_record :
    (r : Option SnapshotChanges) (live : Live)
    → (add_record r live).complete ≡ (live.complete && is_some r)
complete-add_record none live = ground arith
complete-add_record (some c) live = ground arith

pub complete-add_kept :
    (kept : List Text) (changes : Dict Text SnapshotChanges) (entries : List SnapshotEntry)
    (live : Live)
    → (add_kept kept changes entries live).complete ≡ (
        live.complete
        && all
            (λ e. not (has_path e.id kept) || is_some (Dict.lookup text_dec e.id changes))
            entries)
complete-add_kept kept changes [] live = ground arith
complete-add_kept kept changes (e ∷ entries) live =
    complete-add_kept kept changes entries _ ∙ (elim (Bool-cases (has_path e.id kept)) [
      | inl k ↦ rw (k, complete-add_record (Dict.lookup text_dec e.id changes) live) (ground arith)
      | inr k ↦ rw k refl
    ])

complete-add_pin :
    (m : Option Manifest) (live : Live) → (add_pin m live).complete ≡ (live.complete && is_some m)
complete-add_pin none live = ground arith
complete-add_pin (some m) live = ground arith

pub complete-add_pinned_hashes :
    (read_pin : Text → Option Manifest) (pinned : List SnapshotEntry) (live : Live)
    → (add_pinned_hashes read_pin pinned live).complete
      ≡ (live.complete && all (λ e. is_some (read_pin e.id)) pinned)
complete-add_pinned_hashes read_pin [] live = ground arith
complete-add_pinned_hashes read_pin (e ∷ pinned) live =
    complete-add_pinned_hashes read_pin pinned _
    ∙ (rw (complete-add_pin (read_pin e.id) live) (ground arith))
