-- ===== src/Merge/Build.antt =====
-- `buildMergeSession` of packages/plugin/src/sync/merge-model.ts, its types and the counts of what is
-- left to decide. `regions` is what `threeWayRegions` answers for the three texts.
pub mod Statuses
use obsync.Base.{
  ℕ, zero, suc, ◌+◌, ◌-◌, min, Bool, true, false, not, ◌&&◌, ◌||◌, Option, none, some, List, [],
  ◌∷◌, ◌++◌, map, Text, same, length, take, drop, filter, ◌==◌, if◌then◌else◌,
}
use obsync.Merge.Hunks.{LineRange}
use obsync.Merge.Regions.{MergeRegion}

pub record Span : Type 0 where
  pub from : ℕ
  pub to : ℕ

-- `no_change` is "none".
pub data ESideStatus : Type 0 where
  no_change : ESideStatus
  open_change : ESideStatus
  applied : ESideStatus
  ignored : ESideStatus

abbrev pub is_open : ESideStatus → Bool
is_open ESideStatus.open_change = true
is_open _ = false

abbrev pub is_applied : ESideStatus → Bool
is_applied ESideStatus.applied = true
is_applied _ = false

-- The records by side are two fields each.
pub record MergeChange : Type 0 where
  pub index : ℕ
  pub conflict : Bool
  pub base : LineRange
  pub ends_at_eof : Bool
  pub local : LineRange
  pub remote : LineRange
  pub result : Span
  pub taken_local : Option Span
  pub taken_remote : Option Span
  pub status_local : ESideStatus
  pub status_remote : ESideStatus

pub record MergeSession : Type 0 where
  pub text : Text
  pub changes : List MergeChange
  pub base_lines : List Text
  pub local_lines : List Text
  pub remote_lines : List Text

abbrev pub is_resolved : MergeChange → Bool
is_resolved c = not (is_open c.status_local) && not (is_open c.status_remote)

abbrev pub count_unresolved : List MergeChange → ℕ
count_unresolved changes = length (filter (λ c. not (is_resolved c)) changes)

abbrev pub slice {ℓ} : {A : Type ℓ} → ℕ → ℕ → List A → List A
slice from to xs = take (to - from) (drop from xs)

abbrev pub same_lines : List Text → List Text → Bool
same_lines [] [] = true
same_lines [] (y ∷ ys) = false
same_lines (x ∷ xs) [] = false
same_lines (x ∷ xs) (y ∷ ys) = same x y && same_lines xs ys

-- `split("\n")`, after `toLf`.
abbrev pub prepend : ℕ → List Text → List Text
prepend c [] = (c ∷ []) ∷ []
prepend c (line ∷ lines) = (c ∷ line) ∷ lines

abbrev pub split_lines : Text → List Text
split_lines [] = [] ∷ []
split_lines (c ∷ s) = if c == 10 then [] ∷ split_lines s else prepend c (split_lines s)

-- `join("\n")`.
abbrev pub join_lines : List Text → Text
join_lines [] = []
join_lines (line ∷ []) = line
join_lines (line ∷ next ∷ lines) = line ++ 10 ∷ join_lines (next ∷ lines)

-- How far `push` moves the running length: a newline is counted after every line.
abbrev pub width : List Text → ℕ
width [] = 0
width (line ∷ lines) = length line + 1 + width lines

-- `out` and its running length.
pub record Out : Type 0 where
  pub lines : List Text
  pub size : ℕ

abbrev pub push : List Text → Out → Out
push lines o = record { lines = o.lines ++ lines; size = o.size + width lines }

abbrev pub status_of : Bool → Bool → ESideStatus
status_of changed conflict =
    if changed
    then (if conflict then ESideStatus.open_change else ESideStatus.applied)
    else ESideStatus.no_change

abbrev taken_of : Bool → Bool → Span → Option Span
taken_of changed conflict result = if changed && not conflict then some result else none

abbrev pub is_conflict : List Text → List Text → MergeRegion → Bool
is_conflict local_lines remote_lines r =
    r.changed_local
    && (r.changed_remote
        && not (
            same_lines (slice r.local.0 r.local.1 local_lines)
              (slice r.remote.0 r.remote.1 remote_lines)))

-- The lines that a region puts in the result.
abbrev pub chosen : List Text → List Text → List Text → MergeRegion → List Text
chosen base_lines local_lines remote_lines r =
    if is_conflict local_lines remote_lines r
    then slice r.base.0 r.base.1 base_lines
    else if r.changed_local
    then slice r.local.0 r.local.1 local_lines
    else slice r.remote.0 r.remote.1 remote_lines

abbrev pub change_of : List Text → List Text → List Text → ℕ → Span → MergeRegion → MergeChange
change_of base_lines local_lines remote_lines index result r =
    let conflict = is_conflict local_lines remote_lines r in
    record {
      index = index;
      conflict = conflict;
      base = r.base;
      ends_at_eof = r.base.1 == length base_lines;
      local = r.local;
      remote = r.remote;
      result = result;
      taken_local = taken_of r.changed_local conflict result;
      taken_remote = taken_of r.changed_remote conflict result;
      status_local = status_of r.changed_local conflict;
      status_remote = status_of r.changed_remote conflict;
    }

-- The loop over the regions, and the rest of the base after it.
unfoldable pub build_from :
    List Text → List Text → List Text → List MergeRegion → ℕ → ℕ → Out → List MergeChange × Out
build_from base_lines local_lines remote_lines [] index base_cursor o =
    ([], push (drop base_cursor base_lines) o)
build_from base_lines local_lines remote_lines (r ∷ regions) index base_cursor o =
    let before = push (slice base_cursor r.base.0 base_lines) o in
    let after = push (chosen base_lines local_lines remote_lines r) before in
    let result : Span = record { from = before.size; to = after.size } in
    let (changes, out) =
      build_from base_lines local_lines remote_lines regions (suc index) r.base.1 after in
    (change_of base_lines local_lines remote_lines index result r ∷ changes, out)

abbrev pub clamp : ℕ → Span → Span
clamp n s = record { from = min s.from n; to = min s.to n }

abbrev pub clamp_taken : Span → Option Span → Option Span
clamp_taken result none = none
clamp_taken result (some s) = some result

abbrev pub clamp_change : ℕ → MergeChange → MergeChange
clamp_change n c = record c {
  result = clamp n c.result;
  taken_local = clamp_taken (clamp n c.result) c.taken_local;
  taken_remote = clamp_taken (clamp n c.result) c.taken_remote;
}

unfoldable pub build_session : List Text → List Text → List Text → List MergeRegion → MergeSession
unfolding build_from
build_session base_lines local_lines remote_lines regions =
    let (changes, out) =
      build_from base_lines local_lines remote_lines regions 0 0
        (record { lines = []; size = 0 }) in
    let text = join_lines out.lines in
    record {
      text = text;
      changes = map (clamp_change (length text)) changes;
      base_lines = base_lines;
      local_lines = local_lines;
      remote_lines = remote_lines;
    }
