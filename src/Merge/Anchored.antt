-- ===== src/Merge/Anchored.antt =====
-- `anchoredHunks` of packages/plugin/src/sync/anchored-hunks.ts and `commonEnds` of hunks.ts beside it.
-- `diff` is `diffArrays` of the package diff within its edit budget, `none` past it.
use obsync.Base.{
  ℕ, zero, suc, ◌+◌, ◌-◌, ◌/◌, min, Bool, false, ◌&&◌, ◌||◌, Option, none, some, List, [], ◌∷◌,
  ◌++◌, Text, text_dec, same, length, get_elem?, set, ltb, ◌==◌, if◌then◌else◌,
}
use obsync.Base.Dict
use obsync.Base.Dict.{Dict}
use obsync.Merge.Hunks.{LineHunk, ArrayChange, hunks_from_changes}
use obsync.Merge.Build.{slice, same_lines}

abbrev pub Differ : Type 0
Differ = List Text → List Text → Option (List ArrayChange)

-- How many items both lists share at their start.
abbrev pub common_start : List Text → List Text → ℕ
common_start [] b = 0
common_start (x ∷ a) [] = 0
common_start (x ∷ a) (y ∷ b) = if same x y then suc (common_start a b) else 0

abbrev pub reversed_onto {ℓ} : {A : Type ℓ} → List A → List A → List A
reversed_onto [] ys = ys
reversed_onto (x ∷ xs) ys = reversed_onto xs (x ∷ ys)

abbrev pub reversed {ℓ} : {A : Type ℓ} → List A → List A
reversed xs = reversed_onto xs []

-- The tail's loop walks both lists from their ends, and stops at what the head took.
abbrev pub common_ends : List Text → List Text → ℕ × ℕ
common_ends a b =
    let head = common_start a b in
    (head, min (common_start (reversed a) (reversed b)) (min (length a - head) (length b - head)))

-- The first loop of `uniquePositions`; `none` is the -1 of a line that occurs again.
unfoldable pub positions_from : List Text → ℕ → Dict Text (Option ℕ) → Dict Text (Option ℕ)
positions_from [] i positions = positions
positions_from (value ∷ values) i positions = positions_from values (suc i) (
    Dict.insert text_dec value
      (elim (Dict.lookup text_dec value positions) [ none ↦ some i | some at ↦ none ]) positions)

abbrev pub only_unique : Dict Text (Option ℕ) → Dict Text ℕ
only_unique [] = []
only_unique ((value, none) ∷ positions) = only_unique positions
only_unique ((value, some at) ∷ positions) = (value, at) ∷ only_unique positions

unfoldable pub unique_positions : List Text → ℕ → ℕ → Dict Text ℕ
unfolding positions_from
unique_positions values from to = only_unique (positions_from (slice from to values) from [])

abbrev pub Anchor : Type 0
Anchor = ℕ × ℕ

-- A `Link` with all before it, the last first.
abbrev pub Chain : Type 0
Chain = List Anchor

abbrev pub tail_below : List Chain → ℕ → ℕ → Bool
tail_below tails mid n = elim (get_elem? tails mid) [
  | none ↦ false
  | some [] ↦ false
  | some (pair ∷ previous) ↦ ltb pair.1 n
]

-- The binary search: each turn narrows what lies between, so that its width is fuel enough.
unfoldable pub search_tails : ℕ → List Chain → ℕ → ℕ → ℕ → ℕ
search_tails zero tails n low high = low
search_tails (suc fuel) tails n low high =
    let mid = (low + high) / 2 in
    let above = search_tails fuel tails n (mid + 1) high in
    let below = search_tails fuel tails n low mid in
    if ltb low high then (if tail_below tails mid n then above else below) else low

abbrev pub previous_of : List Chain → ℕ → Chain
previous_of tails zero = []
previous_of tails (suc low) = elim (get_elem? tails low) [ none ↦ [] | some chain ↦ chain ]

-- `tails[low] = link`, at most one past the end.
abbrev pub put_tail : List Chain → ℕ → Chain → List Chain
put_tail tails low chain = if low == length tails then tails ++ chain ∷ [] else set tails low chain

unfoldable pub tails_from : List Anchor → List Chain → List Chain
unfolding search_tails
tails_from [] tails = tails
tails_from (pair ∷ pairs) tails =
    let low = search_tails (length tails) tails pair.1 0 (length tails) in
    tails_from pairs (put_tail tails low (pair ∷ previous_of tails low))

abbrev pub last_chain : List Chain → Chain
last_chain [] = []
last_chain (chain ∷ []) = chain
last_chain (chain ∷ next ∷ tails) = last_chain (next ∷ tails)

unfoldable pub longest_increasing : List Anchor → List Anchor
unfolding tails_from
longest_increasing pairs = reversed (last_chain (tails_from pairs []))

abbrev pub insert_anchor : Anchor → List Anchor → List Anchor
insert_anchor p [] = p ∷ []
insert_anchor p (q ∷ pairs) = if ltb p.0 q.0 then p ∷ q ∷ pairs else q ∷ insert_anchor p pairs

abbrev pub sort_anchors_onto : List Anchor → List Anchor → List Anchor
sort_anchors_onto [] sorted = sorted
sort_anchors_onto (p ∷ pairs) sorted = sort_anchors_onto pairs (insert_anchor p sorted)

abbrev pub pair_positions : Dict Text ℕ → Dict Text ℕ → List Anchor
pair_positions [] line_positions = []
pair_positions ((line, at) ∷ positions) line_positions =
    elim (Dict.lookup text_dec line line_positions) [
      | none ↦ pair_positions positions line_positions
      | some other ↦ (at, other) ∷ pair_positions positions line_positions
    ]

unfoldable pub anchor_chain : List Text → List Text → ℕ → ℕ → ℕ → List Anchor
unfolding unique_positions longest_increasing
anchor_chain base lines from base_end lines_end = longest_increasing (
    sort_anchors_onto
      (pair_positions (unique_positions base from base_end) (unique_positions lines from lines_end))
      [])

-- `gap`, from the two places reached to the two given.
unfoldable pub gap_hunks : Differ → List Text → List Text → ℕ → ℕ → ℕ → ℕ → List LineHunk
gap_hunks diff base lines base_at line_at base_to line_to =
    let b = slice base_at base_to base in
    let l = slice line_at line_to lines in
    if base_to - base_at == 0 && line_to - line_at == 0
    then []
    else if base_to - base_at == line_to - line_at && same_lines b l
    then []
    else elim (diff b l) [
      | some changes ↦ hunks_from_changes changes base_at line_at
      | none ↦ record { base = (base_at, base_to); lines = (line_at, line_to) } ∷ []
    ]

unfoldable pub between_anchors :
    Differ → List Text → List Text → ℕ → ℕ → ℕ → ℕ → List Anchor → List LineHunk
unfolding gap_hunks
between_anchors diff base lines base_at line_at base_end lines_end [] =
    gap_hunks diff base lines base_at line_at base_end lines_end
between_anchors diff base lines base_at line_at base_end lines_end (p ∷ chain) =
    gap_hunks diff base lines base_at line_at p.0 p.1
    ++ between_anchors diff base lines (p.0 + 1) (p.1 + 1) base_end lines_end chain

unfoldable pub anchored_hunks : Differ → List Text → List Text → List LineHunk
unfolding anchor_chain between_anchors
anchored_hunks diff base lines =
    let (head, tail) = common_ends base lines in
    let base_end = length base - tail in
    let lines_end = length lines - tail in
    if head == base_end && head == lines_end
    then []
    else if head == base_end || head == lines_end
    then record { base = (head, base_end); lines = (head, lines_end) } ∷ []
    else between_anchors diff base lines head head base_end lines_end
        (anchor_chain base lines head base_end lines_end)
