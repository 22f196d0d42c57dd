-- ===== src/Sync/History/Sweep.antt =====
-- What the collection of garbage deletes.
use obsync.Base.{
  ◌≡◌, refl, sym, ◌∙◌, ap, Bool, true, false, not, ◌&&◌, ◌||◌, Option, none, some, List, [], ◌∷◌,
  arith, Text, text_dec, any, all, filter, length, leb, Bool-cases, inl, inr,
}
use obsync.Base.Dict
use obsync.Sync.Types.{Manifest}
use obsync.Sync.Moves.{has_path}
use obsync.Sync.Moves.Paths.{has_path-filter}
use obsync.Spaces.Paths.{SnapshotEntry, HistoryLog}
use obsync.Sync.History.Garbage.{
  GcInput, StorageReads, ids, pinned, non_pinned, evicted, kept_ids, retained, add_head,
  evicted_hashes, pinned_among, is_empty, swept, is_head_unchanged, is_sweep_skipped, updated_log,
  clamp_max_snapshots, collect_garbage,
}
use obsync.Sync.History.Hashes.{
  names_hash, record_names, manifest_names, is_some, has_path-add_kept, has_path-add_pinned_hashes,
  has_path-evicted_hashes, has_path-add_head, has_path-head, complete-add_kept,
  complete-add_pinned_hashes,
}

-- The head as it is read again.
abbrev pub read_head : Option (Option Manifest) → Option Manifest
read_head none = none
read_head (some m) = m

-- A hash is in use by the head, as given or as read again, by the record of a snapshot that is kept
-- or by a pin's manifest.
abbrev pub is_in_use : GcInput → StorageReads → Text → Bool
is_in_use x s h =
    names_hash h x.head_manifest.files
    || any
        (λ e.
          has_path e.id (kept_ids x) && record_names h (Dict.lookup text_dec e.id x.log.changes))
        x.log.snapshots
    || any (λ e. manifest_names h (s.read_pin e.id)) (pinned x)
    || manifest_names h (read_head s.head)

-- Every kept snapshot has its record, every pin its manifest, and the head was read.
abbrev pub is_all_read : GcInput → StorageReads → Bool
is_all_read x s =
    all (λ e. not (has_path e.id (kept_ids x)) || is_some (Dict.lookup text_dec e.id x.log.changes))
      x.log.snapshots
    && all (λ e. is_some (s.read_pin e.id)) (pinned x)
    && is_some (read_head s.head)

is_empty-filter :
    (q : Text → Bool) (i : Text) (xs : List Text)
    → is_empty (filter q (i ∷ xs)) ≡ true
    → (q i ≡ false) × (is_empty (filter q xs) ≡ true)
is_empty-filter q i xs h = ground arith

no_pin :
    (pin_exists : Text → Bool) (entries : List SnapshotEntry) (log : HistoryLog)
    → is_empty (pinned_among pin_exists (ids entries) log) ≡ true
    → any (λ e. pin_exists e.id) entries ≡ false
no_pin pin_exists [] log h = refl
no_pin pin_exists (e ∷ entries) log h =
    let parts =
      is_empty-filter
        (λ id. has_path id (ids (filter (λ e. e.pinned) log.snapshots)) || pin_exists id) e.id
        (ids entries) h in
    ground (arith, parts.0, no_pin pin_exists entries log parts.1)

-- The hashes in use are those that the sweep goes by.
has_path-in_use :
    (x : GcInput) (s : StorageReads) (m : Manifest) (h : Text)
    → s.head ≡ some (some m)
    → has_path h (add_head s.head (retained x s).hashes) ≡ is_in_use x s h
has_path-in_use x s m h e = rw e (
    has_path-add_head h m _
    ∙ (rw
        (
          has_path-add_pinned_hashes h s.read_pin (pinned x) _,
          has_path-add_kept h (kept_ids x) x.log.changes x.log.snapshots _,
          has_path-head h x.head_manifest.files,
        )
        refl))

retained-complete :
    (x : GcInput) (s : StorageReads) (m : Manifest)
    → s.head ≡ some (some m)
    → (retained x s).complete ≡ is_all_read x s
retained-complete x s m e = rw e (
    complete-add_pinned_hashes s.read_pin (pinned x) _
    ∙ (rw (complete-add_kept (kept_ids x) x.log.changes x.log.snapshots _) (ground arith)))

head_read :
    (head : Option (Option Manifest)) (m : Manifest)
    → is_head_unchanged head m ≡ true
    → (n : Manifest) × (head ≡ some (some n))
head_read none m h = ground arith
head_read (some none) m h = ground arith
head_read (some (some n)) m h = (n, refl)

-- What one sweep of a hash means.
abbrev pub IsGarbage : GcInput → StorageReads → Text → Type 0
IsGarbage x s h =
    (is_in_use x s h ≡ false)
    × (is_all_read x s ≡ true)
    × (any (λ e. s.pin_exists e.id) (evicted x) ≡ false)
    × (any (λ e. record_names h (Dict.lookup text_dec e.id x.log.changes)) (evicted x) ≡ true)

swept-IsGarbage :
    (x : GcInput) (s : StorageReads) (log : HistoryLog) (h : Text)
    → is_sweep_skipped x s log ≡ false
    → has_path h (
        filter
          (λ hash. not (has_path hash (add_head s.head (retained x s).hashes)))
          (evicted_hashes x.log.changes (evicted x) []))
      ≡ true
    → IsGarbage x s h
swept-IsGarbage x s log h k e =
    let parts : ((retained x s).complete ≡ true)
        × (is_head_unchanged s.head x.head_manifest ≡ true)
        × (is_empty (pinned_among s.pin_exists (ids (evicted x)) log) ≡ true) =
      ground arith in
    let head = head_read s.head x.head_manifest parts.1 in
    let out = sym (has_path-filter h _ (evicted_hashes x.log.changes (evicted x) [])) ∙ e in
    let both : (has_path h (add_head s.head (retained x s).hashes) ≡ false)
        × (has_path h (evicted_hashes x.log.changes (evicted x) []) ≡ true) =
      ground (arith, out) in
    (
      sym (has_path-in_use x s head.0 h head.1) ∙ both.0,
      sym (retained-complete x s head.0 head.1) ∙ parts.0,
      no_pin s.pin_exists (evicted x) log parts.2,
      sym (has_path-evicted_hashes h x.log.changes (evicted x) []) ∙ both.1,
    )

swept_hash :
    (skipped : Bool) (evicted live : List Text) (h : Text)
    → has_path h (swept skipped evicted live) ≡ true
    → (skipped ≡ false) × (has_path h (filter (λ hash. not (has_path hash live)) evicted) ≡ true)
swept_hash true evicted live h e = ground arith
swept_hash false evicted live h e = (refl, e)

deleted-within :
    (x : GcInput) (s : StorageReads)
    → leb (length (non_pinned x)) (clamp_max_snapshots x.max_snapshots) ≡ true
    → (collect_garbage x s).deleted ≡ []
unfolding collect_garbage
deleted-within x s k = rw k refl

deleted-past :
    (x : GcInput) (s : StorageReads)
    → leb (length (non_pinned x)) (clamp_max_snapshots x.max_snapshots) ≡ false
    → (collect_garbage x s).deleted
      ≡ swept
          (is_sweep_skipped x s (updated_log x s).0)
          (evicted_hashes x.log.changes (evicted x) [])
          (add_head s.head (retained x s).hashes)
unfolding collect_garbage
deleted-past x s k = rw k refl

-- Each hash whose object the collection deletes is named by the record of an evicted snapshot and is
-- not in use by the head, by a kept snapshot or by a pin; each kept record and each pin could be
-- read then, as could the head, and no evicted snapshot has a pin in the storage.
pub collect_garbage-IsGarbage :
    (x : GcInput) (s : StorageReads) (h : Text)
    → has_path h (collect_garbage x s).deleted ≡ true
    → IsGarbage x s h
collect_garbage-IsGarbage x s h e =
    elim (Bool-cases (leb (length (non_pinned x)) (clamp_max_snapshots x.max_snapshots))) [
      | inl k ↦
          let n : true ≡ false = sym e ∙ ap (has_path h) (deleted-within x s k) in ground arith
      | inr k ↦
          let out = swept_hash _ _ _ h (sym (ap (has_path h) (deleted-past x s k)) ∙ e) in
          swept-IsGarbage x s (updated_log x s).0 h out.0 out.1
    ]
