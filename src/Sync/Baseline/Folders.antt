-- ===== src/Sync/Baseline/Folders.antt =====
-- Which empty folders are agreed on.
use obsync.Base.{
  ℕ, suc, ◌+◌, ◌≡◌, refl, ap, ◌∙◌, Bool, true, false, not, ◌&&◌, ◌||◌, Option, List, [], ◌∷◌, ◌++◌,
  arith, Text, text_dec, same, filter, leb, if◌then◌else◌,
}
use obsync.Base.Dict
use obsync.Base.Dict.{Dict}
use obsync.Base.Keys.{IsUnique, insert-IsUnique, any-filter_keys, passes_at}
use obsync.Sync.Moves.{has_path, unique_paths}
use obsync.Sync.Moves.Paths.{has_path-append, has_path-unique_paths, has_path-filter}
use obsync.Sync.Baseline.{
  count_at, count_sides, or_no_folders, majority_folders, drop_folders, merge_folder_arrays,
}

-- How often a folder stands in a list.
abbrev times : Text → List Text → ℕ
times dir [] = 0
times dir (d ∷ dirs) = if same d dir then suc (times dir dirs) else times dir dirs

-- No folder stands twice.
abbrev pub IsDistinct : List Text → Type 0
IsDistinct [] = Unit
IsDistinct (d ∷ dirs) = (has_path d dirs ≡ false) × IsDistinct dirs

abbrev pub one : Bool → ℕ
one true = 1
one false = 0

times-append : (dir : Text) (xs ys : List Text) → times dir (xs ++ ys) ≡ times dir xs + times dir ys
times-append dir [] ys = omega arith
times-append dir (x ∷ xs) ys = ground (arith, times-append dir xs ys)

times_distinct :
    (dir : Text) (xs : List Text) → IsDistinct xs → times dir xs ≡ one (has_path dir xs)
times_distinct dir [] h = refl
times_distinct dir (x ∷ xs) h = ground (arith, times_distinct dir xs h.1, ap (λ d. has_path d xs))

count_at-insert :
    (dir d : Text) (n : ℕ) (m : Dict Text ℕ)
    → count_at (Dict.insert text_dec d n m) dir ≡ (if same d dir then n else count_at m dir)
count_at-insert dir d n m = ground (arith, Dict.lookup-insert text_dec dir d n m)

count_at-count_sides :
    (dir : Text) (dirs : List Text) (m : Dict Text ℕ)
    → count_at (count_sides dirs m) dir ≡ count_at m dir + times dir dirs
unfolding count_sides
count_at-count_sides dir [] m = omega arith
count_at-count_sides dir (d ∷ dirs) m =
    count_at-count_sides dir dirs (Dict.insert text_dec d (count_at m d + 1) m)
    ∙ (rw (count_at-insert dir d (count_at m d + 1) m) (ground (arith, ap (count_at m))))

count_sides-IsUnique :
    (dirs : List Text) (m : Dict Text ℕ) → IsUnique m → IsUnique (count_sides dirs m)
unfolding count_sides
count_sides-IsUnique [] m h = h
count_sides-IsUnique (d ∷ dirs) m h =
    count_sides-IsUnique dirs _ (insert-IsUnique d (count_at m d + 1) m h)

passes-count :
    (dir : Text) (m : Dict Text ℕ)
    → passes_at (λ e. leb 2 e.1) dir (Dict.lookup text_dec dir m) ≡ leb 2 (count_at m dir)
passes-count dir m = ground arith

-- When no side lists a folder twice, a folder is agreed on exactly if at least two of the baseline,
-- the remote and the disk have it.
pub has_path-majority_folders :
    (baseline remote : Option (List Text)) (local : List Text) (dir : Text)
    → IsDistinct (or_no_folders baseline)
    → IsDistinct (or_no_folders remote)
    → IsDistinct local
    → has_path dir (majority_folders baseline remote local)
      ≡ leb 2 (
          one (has_path dir (or_no_folders baseline))
          + (one (has_path dir (or_no_folders remote)) + one (has_path dir local)))
unfolding majority_folders Dict.lookup
has_path-majority_folders baseline remote local dir hb hr hl =
    let sides = or_no_folders baseline ++ (or_no_folders remote ++ local) in
    let sum : count_at (count_sides sides []) dir
        ≡ one (has_path dir (or_no_folders baseline))
          + (one (has_path dir (or_no_folders remote)) + one (has_path dir local)) =
      omega (
        arith,
        count_at-count_sides dir sides [],
        times-append dir (or_no_folders baseline) (or_no_folders remote ++ local),
        times-append dir (or_no_folders remote) local,
        times_distinct dir (or_no_folders baseline) hb,
        times_distinct dir (or_no_folders remote) hr,
        times_distinct dir local hl,
      ) in
    any-filter_keys (λ e. leb 2 e.1) dir (count_sides sides []) (count_sides-IsUnique sides [] tt)
    ∙ passes-count dir (count_sides sides [])
    ∙ ap (leb 2) sum

has_path-drop_folders :
    (dir : Text) (dirs local remote merged : List Text)
    → has_path dir (drop_folders dirs local remote merged) ≡ (
        has_path dir merged
        && (not (has_path dir dirs) || (has_path dir local && has_path dir remote)))
unfolding drop_folders
has_path-drop_folders dir [] local remote merged = ground arith
has_path-drop_folders dir (d ∷ dirs) local remote merged = ground (
  arith,
  has_path-drop_folders dir dirs local remote merged,
  has_path-drop_folders dir dirs local remote (filter (λ e. not (same e d)) merged),
  has_path-filter dir (λ e. not (same e d)) merged,
  ap (λ e. has_path e local),
  ap (λ e. has_path e remote),
)

-- The folders of a merged manifest are those of either side, but for a folder of the baseline that
-- one side has no more.
pub has_path-merge_folder_arrays :
    (remote : Option (List Text)) (local baseline : List Text) (dir : Text)
    → has_path dir (merge_folder_arrays remote local baseline) ≡ (
        (has_path dir (or_no_folders remote) || has_path dir local)
        && (not (has_path dir baseline)
            || (has_path dir local && has_path dir (or_no_folders remote))))
unfolding merge_folder_arrays
has_path-merge_folder_arrays remote local baseline dir =
    let sides = or_no_folders remote ++ local in
    has_path-drop_folders dir baseline local (or_no_folders remote) (unique_paths sides [])
    ∙ (rw (has_path-unique_paths dir sides, has_path-append dir (or_no_folders remote) local) refl)
