-- ===== src/Sync/Baseline/Advance.antt =====
-- The files of the baseline after a push.
use obsync.Base.{◌≡◌, refl, not, none, some, [], ◌∷◌, arith, Text, text_dec}
use obsync.Base.Dict
use obsync.Sync.Types.{Files, entry_at, keys}
use obsync.Sync.Moves.{has_path}
use obsync.Sync.Baseline.{is_missing}

-- One path of the loop.
abbrev advance_one : Files → Text → Files → Files
advance_one published q files = elim (entry_at published q) [
  | some entry ↦ Dict.insert text_dec q entry files
  | none ↦ Dict.erase text_dec q files
]

pub has_path-keys : (p : Text) (files : Files) → has_path p (keys files) ≡ not (is_missing files p)
unfolding Dict.lookup
has_path-keys p [] = refl
has_path-keys p ((k, e) ∷ files) = ground (arith, has_path-keys p files)
