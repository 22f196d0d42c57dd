-- ===== src/Sync/Moves/Whole.antt =====
-- `withMoves`: a move acts whole.
use obsync.Base.{◌≡◌, refl, ◌∙◌, Bool, false, ◌&&◌, ◌||◌, List, [], ◌∷◌, arith, Text, same, any}
use obsync.Sync.Types.{Move}
use obsync.Sync.Moves.{has_path, add_path, take_moves, unique_paths, with_moves}
use obsync.Sync.Moves.Paths.{has_path-add_path, has_path-unique_paths}

-- The path is an end of one of the moves.
abbrev pub is_end : Text → List Move → Bool
is_end path moves = any (λ m. same m.from path || same m.to path) moves

-- No two moves share an end.
abbrev pub AreApart : List Move → Type 0
AreApart [] = Unit
AreApart (m ∷ moves) =
    ((is_end m.from moves ≡ false) × (is_end m.to moves ≡ false)) × AreApart moves

-- The path is an end of a move of which an end is taken.
abbrev pub is_reached : Text → List Text → List Move → Bool
is_reached path taken moves =
    any
      (λ m. (same m.from path || same m.to path) && (has_path m.from taken || has_path m.to taken))
      moves

reached_apart :
    (path p q : Text) (taken : List Text) (moves : List Move)
    → is_end p moves ≡ false
    → is_end q moves ≡ false
    → is_reached path (add_path q (add_path p taken)) moves ≡ is_reached path taken moves
reached_apart path p q taken [] h k = refl
reached_apart path p q taken (m ∷ moves) h k = ground (
  arith,
  reached_apart path p q taken moves,
  has_path-add_path m.from q (add_path p taken),
  has_path-add_path m.from p taken,
  has_path-add_path m.to q (add_path p taken),
  has_path-add_path m.to p taken,
)

has_path-take_moves :
    (path : Text) (moves : List Move) (taken : List Text)
    → AreApart moves
    → has_path path (take_moves moves taken) ≡ (has_path path taken || is_reached path taken moves)
unfolding take_moves
has_path-take_moves path [] taken h = ground arith
has_path-take_moves path (m ∷ moves) taken h =
    let both = add_path m.to (add_path m.from taken) in
    ground (
      arith,
      has_path-take_moves path moves taken h.1,
      has_path-take_moves path moves both h.1,
      reached_apart path m.from m.to taken moves h.0.0 h.0.1,
      has_path-add_path path m.to (add_path m.from taken),
      has_path-add_path path m.from taken,
    )

reached_unique :
    (path : Text) (paths : List Text) (moves : List Move)
    → is_reached path (unique_paths paths []) moves ≡ is_reached path paths moves
reached_unique path paths [] = refl
reached_unique path paths (m ∷ moves) = ground (
  arith,
  reached_unique path paths moves,
  has_path-unique_paths m.from paths,
  has_path-unique_paths m.to paths,
)

-- When no two moves share an end, the paths taken are exactly those asked for and both ends of each
-- move of which an end was asked for.
pub has_path-with_moves :
    (paths : List Text) (moves : List Move) (path : Text)
    → AreApart moves
    → has_path path (with_moves paths moves) ≡ (has_path path paths || is_reached path paths moves)
unfolding with_moves
has_path-with_moves paths moves path h =
    has_path-take_moves path moves (unique_paths paths []) h
    ∙ (rw (has_path-unique_paths path paths, reached_unique path paths moves) refl)
