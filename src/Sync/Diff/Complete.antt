-- ===== src/Sync/Diff/Complete.antt =====
-- That no changed path is missing from the comparison.
use obsync.Base.{
  ◌≡◌, refl, ap, ◌∙◌, Bool, true, not, ◌&&◌, ◌||◌, Option, none, some, List, [], ◌∷◌, arith, Text,
  same,
}
use obsync.Sync.Types.{Side, DiffResult, ManifestEntry, entry_at}
use obsync.Sync.Moves.{
  Unpaired, Open, by_path, follow_remote, follow_local, moves_on, pair_moves, gone_remotely,
  fresh_remotely, gone_locally, fresh_locally, has_path,
}
use obsync.Sync.Pairing.{pair_up}
use obsync.Sync.Diff.{
  DiffInput, files_of, all_paths, is_unreadable, add_local, add_remote, add_conflict, visit,
  compare, diff, passes, same_content,
}
use obsync.Sync.Diff.Paths.{is_there, has_path-all_paths}
use obsync.Sync.Diff.Kept.{
  has_change, has_conflict, has_target, is_kept, IsKeyed, key-by_path, kept-follow_remote,
  kept-follow_local, target-moves_on, target-append, held-follow_local, change-filter,
  conflict-values, by_path-IsKeyed, follow_remote-IsKeyed, follow_local-IsKeyed,
}
use obsync.Sync.Diff.Sound.{is_kept_here, is_kept_there, is_agreed}

-- The path is on a list of changes, or conflicts, or a move ends there.
abbrev pub is_listed : Text → DiffResult → Bool
is_listed path r =
    has_change path r.local_changes
    || (has_change path r.remote_changes
        || (has_conflict path r.conflicts || has_target path r.moves))

abbrev is_found : Text → Unpaired → Bool
is_found path u =
    has_change path u.local_changes
    || (has_change path u.remote_changes || has_conflict path u.conflicts)

-- A side holds something else than the baseline, and the two sides do not hold the same.
abbrev pub is_changed : DiffInput → Text → Bool
is_changed x path =
    not (is_unreadable x path)
    && (not (is_kept_here x path && is_kept_there x path)
        && (is_kept_here x path || (is_kept_there x path || not (is_agreed x path))))

module _ (x : DiffInput) (path : Text) where
  found-visit :
      (q : Text) (u : Unpaired)
      → is_found path (visit x q u) ≡ (same q path && is_changed x q || is_found path u)
  unfolding visit add_local add_remote add_conflict
  found-visit q u = ground arith

  found-compare :
      (paths : List Text)
      → (has_path path paths && is_changed x path) ≡ true
      → is_found path (compare x paths) ≡ true
  unfolding compare
  found-compare [] h = h
  found-compare (q ∷ paths) h =
      found-visit q (compare x paths) ∙ (ground (arith, found-compare paths, ap (is_changed x)))

module _ (path : Text) where
  listed-pair_moves :
      (x : DiffInput) (u : Unpaired)
      → is_found path u ≡ true
      → is_listed path (pair_moves u (files_of x.baseline)) ≡ true
  unfolding pair_moves
  listed-pair_moves x u h =
      let baseline = files_of x.baseline in
      let remote = pair_up (gone_remotely u baseline) (fresh_remotely u) in
      let local = pair_up (gone_locally u baseline) (fresh_locally u) in
      let start : Open = (by_path u.conflicts [], u.remote_changes) in
      let followed = follow_remote remote start in
      let left = (follow_local local followed []).0 in
      let held = (follow_local local followed []).1 in
      let keyed : IsKeyed left.0 =
        follow_local-IsKeyed local followed []
          (follow_remote-IsKeyed remote start (by_path-IsKeyed u.conflicts [] tt)) in
      let kept : is_kept path left ≡ is_kept path start =
        kept-follow_local path local followed [] ∙ kept-follow_remote path remote start in
      ground (
        arith,
        h,
        kept,
        key-by_path path u.conflicts [],
        change-filter path held u.local_changes,
        conflict-values path left.0 keyed,
        target-append path (moves_on Side.remote remote) (moves_on Side.local local),
        target-moves_on path Side.local local,
        held-follow_local path local followed [],
      )

-- A path is compared when it has a local file, or is in the scope of the comparison.
abbrev pub is_in_scope : DiffInput → Text → Bool
is_in_scope x path = is_there (entry_at x.local.files path) || passes x.includes path

-- A path on which a side holds something else than the baseline is held somewhere.
changed-is_there :
    (x : DiffInput) (path : Text)
    → is_changed x path ≡ true
    → (is_there (entry_at x.local.files path)
        || (is_there (entry_at (files_of x.remote) path)
            || is_there (entry_at (files_of x.baseline) path)))
      ≡ true
unfolding same_content
changed-is_there x path h =
    go (is_unreadable x path) (entry_at x.local.files path) (entry_at (files_of x.remote) path)
      (entry_at (files_of x.baseline) path) h
  where
    go :
        (unreadable : Bool) (l r b : Option ManifestEntry)
        → (not unreadable
            && (not (same_content l b && same_content r b)
                && (same_content l b || (same_content r b || not (same_content l r)))))
          ≡ true
        → (is_there l || (is_there r || is_there b)) ≡ true
    go unreadable none none none k = ground arith
    go unreadable none none (some b) k = refl
    go unreadable none (some r) b k = refl
    go unreadable (some l) r b k = refl

-- A path that has a local file or is in the scope, that could be read, on which a side holds
-- something else than the baseline, and on which not both sides changed to the same content, is on
-- a list of changes or conflicts, or a move ends there.
pub diff-IsComplete :
    (x : DiffInput) (path : Text)
    → is_in_scope x path ≡ true
    → is_changed x path ≡ true
    → is_listed path (diff x) ≡ true
unfolding diff
diff-IsComplete x path scope h =
    let found = changed-is_there x path h in
    let visited : has_path path (all_paths x) ≡ true =
      has_path-all_paths x path ∙ (ground (arith, scope, found)) in
    listed-pair_moves path x (compare x (all_paths x))
      (found-compare x path (all_paths x) (ground (arith, visited, h)))
