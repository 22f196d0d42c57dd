-- ===== src/Sync/Diff/Paths.antt =====
-- The paths that a comparison goes over.
use obsync.Base.{
  ◌≡◌, refl, ◌∙◌, Bool, true, false, ◌&&◌, ◌||◌, Option, none, some, [], ◌∷◌, arith, Text, filter,
}
use obsync.Base.Dict
use obsync.Sync.Types.{ManifestEntry, Files, entry_at, keys}
use obsync.Sync.Moves.{has_path}
use obsync.Sync.Moves.Paths.{has_path-append, has_path-unique_paths, has_path-filter}
use obsync.Sync.Diff.{DiffInput, files_of, passes, all_paths}

abbrev pub is_there : Option ManifestEntry → Bool
is_there none = false
is_there (some e) = true

has_path-keys : (p : Text) (files : Files) → has_path p (keys files) ≡ is_there (entry_at files p)
unfolding Dict.lookup
has_path-keys p [] = refl
has_path-keys p ((k, e) ∷ files) = ground (arith, has_path-keys p files)

-- A path of the local files, or one in scope that the remote or the baseline has.
pub has_path-all_paths :
    (x : DiffInput) (p : Text)
    → has_path p (all_paths x) ≡ (
        is_there (entry_at x.local.files p)
        || (passes x.includes p
            && (is_there (entry_at (files_of x.remote) p)
                || is_there (entry_at (files_of x.baseline) p))))
has_path-all_paths x p =
    let remote = keys (files_of x.remote) in
    let baseline = keys (files_of x.baseline) in
    has_path-unique_paths p _
    ∙ (rw
        (
          has_path-append p (keys x.local.files) _,
          has_path-append p (filter (passes x.includes) remote) _,
          has_path-filter p (passes x.includes) remote,
          has_path-filter p (passes x.includes) baseline,
          has_path-keys p x.local.files,
          has_path-keys p (files_of x.remote),
          has_path-keys p (files_of x.baseline),
        )
        (ground arith))
