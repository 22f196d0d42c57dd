-- ===== src/Tests/Merges.antt =====
-- Three-way merges of short texts.
use obsync.Base.{
  ℕ, ◌≡◌, refl, true, false, some, List, [], ◌∷◌, ◌++◌, arith, Text, codes, text_dec, ℕ_discrete,
  All, ◌==◌, if◌then◌else◌, ◌&&◌,
}
use obsync.Merge.Hunks.{LineHunk, ArrayChange, hunks_from, hunks_from_changes}
use obsync.Merge.Hunks.Patch.{IsPatch, olds, news, hunks_from_changes-IsPatch}
use obsync.Merge.Anchored.{Differ}
use obsync.Merge.Regions.{
  EMergeSide, SideHunk, on_side, groups, three_way_regions, gather, joins, region_of, side_range,
}
use obsync.Merge.Regions.Ordered.{
  all_hunks, all_hunks-groups, AreOrdered, three_way_regions-AreOrdered,
}
use obsync.Merge.Regions.Covered.{is_covered, three_way_regions_cover}
use obsync.Merge.Build.{build_session, build_from, count_unresolved, same_lines, slice, join_lines}
use obsync.Merge.Build.Statuses.{AreBuilt, build_session-AreBuilt}
use obsync.Merge.Plans.{LineDoc, replace_lines}
use obsync.Merge.Plans.Edits.{edited, replace_lines-result}
use obsync.Merge.Whole.{to_lf, build_merge_session}
use obsync.Merge.Clean.Unchanged.{merge_unchanged}

abbrev kept : List Text → ArrayChange
kept lines = record { added = false; removed = false; value = lines }

abbrev gone : List Text → ArrayChange
gone lines = record { added = false; removed = true; value = lines }

abbrev fresh : List Text → ArrayChange
fresh lines = record { added = true; removed = false; value = lines }

-- A differ that replaces the whole, or keeps it.
abbrev coarse : Differ
coarse a b = some (if same_lines a b then kept a ∷ [] else gone a ∷ fresh b ∷ [])

abbrev script : List ArrayChange
script =
    kept (codes "a" ∷ [])
    ∷ gone (codes "b" ∷ [])
    ∷ fresh (codes "x" ∷ codes "y" ∷ [])
    ∷ kept (codes "c" ∷ [])
    ∷ []

script_hunks : hunks_from_changes script 0 0 ≡ record { base = (1, 2); lines = (1, 3) } ∷ []
unfolding hunks_from
script_hunks = refl

hunks_from_changes-IsPatch_example :
    IsPatch (olds script) (news script) 0 0 (hunks_from_changes script 0 0)
hunks_from_changes-IsPatch_example = hunks_from_changes-IsPatch script 0 0

abbrev hunk : ℕ → ℕ → ℕ → ℕ → LineHunk
hunk a b c d = record { base = (a, b); lines = (c, d) }

abbrev ours : List LineHunk
ours = hunk 1 2 1 3 ∷ hunk 5 6 6 7 ∷ []

abbrev theirs : List LineHunk
theirs = hunk 2 3 2 2 ∷ []

abbrev both : List SideHunk
both = on_side EMergeSide.local ours ++ on_side EMergeSide.remote theirs

all_hunks-groups_example : all_hunks (groups 3 true both) ≡ both
all_hunks-groups_example = all_hunks-groups 3 true both (omega arith)

three_way_regions-AreOrdered_example : AreOrdered true (three_way_regions ours theirs true)
three_way_regions-AreOrdered_example = three_way_regions-AreOrdered ours theirs true

three_way_regions_cover_example :
    All (λ h. is_covered (three_way_regions ours theirs true) h ≡ true) both
three_way_regions_cover_example = three_way_regions_cover ours theirs true

abbrev base_lines : List Text
base_lines = codes "a" ∷ codes "b" ∷ codes "c" ∷ codes "d" ∷ codes "e" ∷ codes "f" ∷ codes "g" ∷ []

abbrev local_lines : List Text
local_lines =
    codes "a"
    ∷ codes "x"
    ∷ codes "y"
    ∷ codes "c"
    ∷ codes "d"
    ∷ codes "e"
    ∷ codes "z"
    ∷ codes "g"
    ∷ []

abbrev remote_lines : List Text
remote_lines = codes "a" ∷ codes "b" ∷ codes "d" ∷ codes "e" ∷ codes "f" ∷ codes "g" ∷ []

-- Both sides changed what touches, so that it is one conflict; the other change is taken.
merged_text :
    (build_session base_lines local_lines remote_lines (three_way_regions ours theirs true)).text
    ≡ join_lines
        (codes "a" ∷ codes "b" ∷ codes "c" ∷ codes "d" ∷ codes "e" ∷ codes "z" ∷ codes "g" ∷ [])
unfolding build_session build_from groups gather joins region_of side_range text_dec ℕ_discrete
merged_text = refl

-- The conflict is left to decide.
unresolved :
    count_unresolved
      (build_session base_lines local_lines remote_lines
        (three_way_regions ours theirs true)).changes
    ≡ 1
unfolding build_session build_from groups gather joins region_of side_range text_dec ℕ_discrete
unresolved = refl

build_session-AreBuilt_example :
    let session =
      build_session base_lines local_lines remote_lines (three_way_regions ours theirs true) in
    (lines : List Text) × (session.text ≡ join_lines lines)
    × AreBuilt base_lines local_lines remote_lines 0
        (three_way_regions ours theirs true)
        session.changes
        lines
build_session-AreBuilt_example =
    build_session-AreBuilt base_lines local_lines remote_lines (three_way_regions ours theirs true)

-- The document "a\nb".
abbrev doc : LineDoc
doc = record {
  size = 3;
  line_at = λ n.
      if n == 0
      then record { from = 0; to = 1 }
      else if n == 1
      then record { from = 0; to = 1 }
      else record { from = 2; to = 3 };
}

replace_lines-result_example :
    let e =
      replace_lines doc (record { from = 0; to = 2 }) (codes "x" ∷ codes "y" ∷ []) false false in
    slice e.result.from e.result.to (edited (codes "a" ++ 10 ∷ codes "b") e.from e.to e.insert)
    ≡ join_lines (codes "x" ∷ codes "y" ∷ []) ++ (if false && 2 == doc.size then [] else 10 ∷ [])
replace_lines-result_example =
    replace_lines-result doc (record { from = 0; to = 2 }) (codes "x") (codes "y" ∷ []) false false
      (codes "a" ++ 10 ∷ codes "b") (omega arith)

abbrev old_text : Text
old_text = codes "a" ++ 10 ∷ codes "b"

abbrev new_text : Text
new_text = codes "a" ++ 13 ∷ 10 ∷ codes "c"

abbrev whole_script : List ArrayChange
whole_script = gone (codes "a" ∷ codes "b" ∷ []) ∷ fresh (codes "a" ∷ codes "c" ∷ []) ∷ []

coarse_changed :
    coarse (codes "a" ∷ codes "b" ∷ []) (codes "a" ∷ codes "c" ∷ []) ≡ some whole_script
unfolding text_dec ℕ_discrete
coarse_changed = refl

coarse_same :
    coarse (codes "a" ∷ codes "b" ∷ []) (codes "a" ∷ codes "b" ∷ [])
    ≡ some (kept (codes "a" ∷ codes "b" ∷ []) ∷ [])
unfolding text_dec ℕ_discrete
coarse_same = refl

merge_unchanged_example :
    (build_merge_session coarse old_text new_text old_text).text ≡ to_lf new_text
merge_unchanged_example =
    merge_unchanged coarse old_text new_text whole_script (kept (codes "a" ∷ codes "b" ∷ []) ∷ [])
      coarse_changed (refl, refl) coarse_same (refl, tt)
