-- ===== src/Merge/Whole.antt =====
-- The whole of a merge: `sideHunks`, `buildMergeSession` and `toLines` of
-- packages/plugin/src/sync/merge-model.ts, and what `tryAutoMergeConflict` of conflict-merge.ts beside
-- it makes of three texts. `diff` is `diffArrays` of the package diff.
use obsync.Base.{
  Bool, true, false, ◌&&◌, Option, none, some, List, [], ◌∷◌, Text, ◌==◌, if◌then◌else◌,
}
use obsync.Merge.Hunks.{LineHunk, hunks_from_changes}
use obsync.Merge.Anchored.{Differ, anchored_hunks}
use obsync.Merge.Regions.{three_way_regions}
use obsync.Merge.Build.{MergeSession, split_lines, build_session, count_unresolved}

unfoldable pub side_hunks : Differ → List Text → List Text → List LineHunk
unfolding anchored_hunks
side_hunks diff base lines = elim (diff base lines) [
  | some changes ↦ hunks_from_changes changes 0 0
  | none ↦ anchored_hunks diff base lines
]

-- `toLf`: a carriage return, with the newline after it if there is one, is a newline.
abbrev pub to_lf_from : Bool → Text → Text
to_lf_from after_return [] = []
to_lf_from after_return (c ∷ s) =
    if c == 13
    then 10 ∷ to_lf_from true s
    else if c == 10 && after_return
    then to_lf_from false s
    else c ∷ to_lf_from false s

abbrev pub to_lf : Text → Text
to_lf text = to_lf_from false text

abbrev pub to_lines : Text → List Text
to_lines value = split_lines (to_lf value)

unfoldable pub build_merge_session : Differ → Text → Text → Text → MergeSession
unfolding build_session side_hunks
build_merge_session diff base here there =
    let base_lines = to_lines base in
    let local_lines = to_lines here in
    let remote_lines = to_lines there in
    build_session base_lines local_lines remote_lines (
      three_way_regions (side_hunks diff base_lines local_lines)
        (side_hunks diff base_lines remote_lines) true)

-- `tryAutoMergeConflict` past its reads, of three texts that are no drawings; `withEolOf` stays outside.
unfoldable pub try_auto_merge : Differ → Text → Text → Text → Option Text
unfolding build_merge_session
try_auto_merge diff base here there =
    let session = build_merge_session diff base here there in
    if count_unresolved session.changes == 0 then some session.text else none
