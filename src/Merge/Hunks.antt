-- ===== src/Merge/Hunks.antt =====
-- `hunksFromChanges` of packages/plugin/src/sync/anchored-hunks.ts. `ArrayChange` is what `diffArrays`
-- of the package diff answers; its `count` is the length of its `value`.
pub mod Patch
use obsync.Base.{
  ℕ, ◌+◌, Bool, true, false, ◌&&◌, ◌||◌, Option, none, some, List, [], ◌∷◌, ◌++◌, Text, length,
  ◌==◌, if◌then◌else◌,
}

-- A half-open range of lines.
abbrev pub LineRange : Type 0
LineRange = ℕ × ℕ

pub record LineHunk : Type 0 where
  pub base : LineRange
  pub lines : LineRange

pub record ArrayChange : Type 0 where
  pub added : Bool
  pub removed : Bool
  pub value : List Text

abbrev last_list : Option LineHunk → List LineHunk
last_list none = []
last_list (some h) = h ∷ []

abbrev pub touches : Option LineHunk → ℕ → ℕ → Bool
touches none base_at line_at = false
touches (some h) base_at line_at = h.base.1 == base_at && h.lines.1 == line_at

abbrev pub extended : Option LineHunk → ℕ → ℕ → ℕ → ℕ → LineHunk
extended none base_at line_at base_to line_to = record {
  base = (base_at, base_to);
  lines = (line_at, line_to);
}
extended (some h) base_at line_at base_to line_to = record {
  base = (h.base.0, base_to);
  lines = (h.lines.0, line_to);
}

-- The loop of `hunksFromChanges`; `last` is the hunk at the end of the list so far.
unfoldable pub hunks_from : List ArrayChange → ℕ → ℕ → Option LineHunk → List LineHunk
hunks_from [] base_at line_at last = last_list last
hunks_from (c ∷ changes) base_at line_at last =
    let base_to = if c.added then base_at else base_at + length c.value in
    let line_to = if c.removed then line_at else line_at + length c.value in
    let extend =
      hunks_from changes base_to line_to (some (extended last base_at line_at base_to line_to)) in
    let push =
      last_list last
      ++ hunks_from changes base_to line_to
          (some (record { base = (base_at, base_to); lines = (line_at, line_to) })) in
    let skip = hunks_from changes base_to line_to last in
    if c.added || c.removed then (if touches last base_at line_at then extend else push) else skip

abbrev pub hunks_from_changes : List ArrayChange → ℕ → ℕ → List LineHunk
hunks_from_changes changes base_from line_from = hunks_from changes base_from line_from none
