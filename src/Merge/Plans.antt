-- ===== src/Merge/Plans.antt =====
-- The edits of packages/plugin/src/sync/merge-model.ts that take a side into the result and out of it.
-- `LineDoc` is the part of the editor's document that they read.
pub mod Edits
use obsync.Base.{
  ℕ, zero, suc, ◌+◌, ◌-◌, min, Bool, true, false, not, ◌&&◌, ◌||◌, Option, none, some, List, [],
  ◌∷◌, ◌++◌, Text, length, ltb, leb, ◌==◌, if◌then◌else◌,
}
use obsync.Merge.Hunks.{LineRange}
use obsync.Merge.Regions.{EMergeSide}
use obsync.Merge.Build.{Span, ESideStatus, is_applied, MergeChange, join_lines}

pub record LineDoc : Type 0 where
  pub size : ℕ
  pub line_at : ℕ → Span

-- `taken` has the side's new span, or `none` where the side's contribution is withdrawn.
pub record EditPlan : Type 0 where
  pub from : ℕ
  pub to : ℕ
  pub insert : Text
  pub result : Option Span
  pub taken : Option Span

pub record LineEdit : Type 0 where
  pub from : ℕ
  pub to : ℕ
  pub insert : Text
  pub result : Span

abbrev pub other_side : EMergeSide → EMergeSide
other_side EMergeSide.local = EMergeSide.remote
other_side EMergeSide.remote = EMergeSide.local

abbrev pub status_on : EMergeSide → MergeChange → ESideStatus
status_on EMergeSide.local c = c.status_local
status_on EMergeSide.remote c = c.status_remote

abbrev pub taken_on : EMergeSide → MergeChange → Option Span
taken_on EMergeSide.local c = c.taken_local
taken_on EMergeSide.remote c = c.taken_remote

abbrev pub range_on : EMergeSide → MergeChange → LineRange
range_on EMergeSide.local c = c.local
range_on EMergeSide.remote c = c.remote

-- `patchTaken`, for a patch of one side.
unfoldable pub patch_taken : EMergeSide → Option Span → MergeChange → MergeChange
patch_taken EMergeSide.local span c = record c { taken_local = span }
patch_taken EMergeSide.remote span c = record c { taken_remote = span }

abbrev pub at_point : ℕ → Span
at_point n = record { from = n; to = n }

unfoldable pub snap_to_lines : LineDoc → Span → Span
snap_to_lines doc span =
    if leb span.to span.from
    then (let line = doc.line_at span.from in
        at_point (
          if span.from == line.from || span.from == doc.size
          then span.from
          else min (line.to + 1) doc.size))
    else (let end_line = doc.line_at span.to in
        record {
          from = (doc.line_at span.from).from;
          to = if end_line.from == span.to then span.to else min (end_line.to + 1) doc.size;
        })

abbrev is_empty_range : LineRange → Bool
is_empty_range r = r.0 == r.1

-- Every side that is applied is empty there; with none applied, the base is.
unfoldable pub empty_result : MergeChange → Bool
empty_result c =
    if is_applied c.status_local || is_applied c.status_remote
    then (not (is_applied c.status_local) || is_empty_range c.local)
      && (not (is_applied c.status_remote) || is_empty_range c.remote)
    else is_empty_range c.base

abbrev is_line_start : LineDoc → ℕ → Bool
is_line_start doc n = (doc.line_at n).from == n

abbrev edit_of : ℕ → ℕ → Text → Text → LineEdit
edit_of from to prefix insert = record {
  from = from;
  to = to;
  insert = insert;
  result = record { from = from + length prefix; to = from + length insert };
}

abbrev removal_start : LineDoc → Span → Bool → ℕ
removal_start doc target at_end =
    if at_end && (ltb 0 target.from && (ltb target.from target.to || is_line_start doc target.from))
    then target.from - 1
    else target.from

abbrev prefix_of : LineDoc → Span → Bool → Bool → Text
prefix_of doc target at_end after_last_line =
    if target.from == target.to
      && ((at_end && after_last_line) || not (is_line_start doc target.from))
    then 10 ∷ []
    else []

unfoldable pub replace_lines : LineDoc → Span → List Text → Bool → Bool → LineEdit
replace_lines doc target [] ends_at_eof after_last_line =
    edit_of (removal_start doc target (ends_at_eof && target.to == doc.size)) target.to [] []
replace_lines doc target (line ∷ lines) ends_at_eof after_last_line =
    let at_end = ends_at_eof && target.to == doc.size in
    let prefix = prefix_of doc target at_end after_last_line in
    edit_of target.from target.to prefix
      (prefix ++ (join_lines (line ∷ lines) ++ (if at_end then [] else 10 ∷ [])))

abbrev plan_of : LineEdit → Span → EditPlan
plan_of e result = record {
  from = e.from;
  to = e.to;
  insert = e.insert;
  result = some result;
  taken = some e.result;
}

-- The other side's part of a change that is no conflict and whose other side is in.
abbrev shared_part : MergeChange → EMergeSide → Option Span
shared_part c side =
    if not c.conflict && is_applied (status_on (other_side side) c)
    then taken_on (other_side side) c
    else none

abbrev insert_side : LineDoc → MergeChange → Bool → List Text → EditPlan
insert_side doc c append side_lines =
    let span = snap_to_lines doc c.result in
    if append && length side_lines == 0
    then record {
      from = span.to;
      to = span.to;
      insert = [];
      result = some span;
      taken = some (at_point span.to);
    }
    else (let edit =
          replace_lines doc (if append then at_point span.to else span) side_lines c.ends_at_eof
            (append || empty_result c) in
        plan_of edit
          (if append then record { from = span.from; to = edit.result.to } else edit.result))

unfoldable pub apply_plan : LineDoc → MergeChange → EMergeSide → List Text → EditPlan
unfolding snap_to_lines replace_lines empty_result
apply_plan doc c side side_lines = elim (shared_part c side) [
  | some part ↦ record {
    from = part.from;
    to = part.from;
    insert = [];
    result = some c.result;
    taken = some part;
  }
  | none ↦ insert_side doc c (is_applied (status_on (other_side side) c)) side_lines
]

abbrev withdrawal : ℕ → ℕ → Text → Option Span → EditPlan
withdrawal from to insert result = record {
  from = from;
  to = to;
  insert = insert;
  result = result;
  taken = none;
}

abbrev same_span : Span → Span → Bool
same_span a b = a.from == b.from && a.to == b.to

abbrev is_shared : Option Span → Span → Bool
is_shared none part = false
is_shared (some other) part = same_span part other

abbrev base_returns : LineDoc → MergeChange → List Text → EditPlan
base_returns doc c base_lines =
    let edit =
      replace_lines doc (snap_to_lines doc c.result) base_lines c.ends_at_eof (empty_result c) in
    withdrawal edit.from edit.to edit.insert (some edit.result)

-- With the other side in, only this side's part goes.
abbrev part_goes : LineDoc → MergeChange → EMergeSide → Span → EditPlan
part_goes doc c side part =
    if is_shared (shared_part c side) part
      || (part.from == part.to && is_empty_range (range_on side c))
    then withdrawal part.from part.from [] none
    else (let edit = replace_lines doc (snap_to_lines doc part) [] c.ends_at_eof false in
        withdrawal edit.from edit.to [] none)

unfoldable pub revert_plan : LineDoc → MergeChange → EMergeSide → List Text → EditPlan
unfolding snap_to_lines replace_lines empty_result
revert_plan doc c side base_lines = elim (taken_on side c) [
  | none ↦ base_returns doc c base_lines
  | some part ↦
      if is_applied (status_on (other_side side) c)
      then part_goes doc c side part
      else base_returns doc c base_lines
]
