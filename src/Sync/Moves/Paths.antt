-- ===== src/Sync/Moves/Paths.antt =====
-- Membership in a set of paths.
use obsync.Base.{◌≡◌, refl, ◌∙◌, Bool, ◌&&◌, ◌||◌, List, [], ◌∷◌, ◌++◌, arith, Text, same, filter}
use obsync.Sync.Moves.{has_path, add_path, unique_paths}

pub has_path-append :
    (p : Text) (xs ys : List Text) → has_path p (xs ++ ys) ≡ (has_path p xs || has_path p ys)
has_path-append p [] ys = refl
has_path-append p (x ∷ xs) ys = ground (arith, has_path-append p xs ys)

pub has_path-add_path :
    (p q : Text) (paths : List Text)
    → has_path p (add_path q paths) ≡ (same q p || has_path p paths)
has_path-add_path p q paths = ground (arith, has_path-append p paths (q ∷ []))

has_path-unique_from :
    (p : Text) (paths taken : List Text)
    → has_path p (unique_paths paths taken) ≡ (has_path p taken || has_path p paths)
unfolding unique_paths
has_path-unique_from p [] taken = ground arith
has_path-unique_from p (q ∷ paths) taken =
    has_path-unique_from p paths (add_path q taken)
    ∙ (rw (has_path-add_path p q taken) (ground arith))

pub has_path-unique_paths :
    (p : Text) (paths : List Text) → has_path p (unique_paths paths []) ≡ has_path p paths
has_path-unique_paths p paths = has_path-unique_from p paths []

pub has_path-filter :
    (p : Text) (q : Text → Bool) (paths : List Text)
    → has_path p (filter q paths) ≡ (q p && has_path p paths)
has_path-filter p q [] = ground arith
has_path-filter p q (x ∷ paths) = ground (arith, has_path-filter p q paths)
