-- ===== src/Merge/Clean/Kept.antt =====
-- The result of a merge with a side left as it was is the other side's text.
use obsync.Base.{
  ℕ, zero, suc, ◌+◌, ◌-◌, ◌≤◌, ◌≡◌, refl, sym, ap, ap₂, ◌∙◌, Bool, true, false, ◌&&◌, List, [], ◌∷◌,
  ◌++◌, Text, length, filter, any, if◌then◌else◌, arith, length-append, append_assoc, take, drop,
  drop-length_append, take-length_append,
}
use obsync.Merge.Hunks.{LineHunk}
use obsync.Merge.Hunks.Patch.{IsPatch}
use obsync.Merge.Regions.{
  EMergeSide, is_side, SideHunk, on_side, Group, gather, first_of, groups, Cursor, region_of,
  cursor_after, regions_from, MergeRegion,
}
use obsync.Merge.Regions.Ordered.{first-Gathered}
use obsync.Merge.Build.{slice, build_from, Out, push, chosen}
use obsync.Merge.Clean.Runs.{Run, first-Run, gather-Run, side_range-Run, local_hunk}

slice-middle :
    (before part after : List Text) (n m : ℕ)
    → n ≡ length before
    → m ≡ n + length part
    → slice n m (before ++ (part ++ after)) ≡ part
slice-middle before part after n m e f =
    let width : m - n ≡ length part = omega (arith, f) in
    rw (width, e)
      (ap (take (length part)) (drop-length_append before (part ++ after))
        ∙ take-length_append part after)

any-filter :
    (p : SideHunk → Bool) (x : SideHunk) (xs ys : List SideHunk)
    → filter p xs ≡ x ∷ ys
    → any p xs ≡ true
any-filter p x [] ys e = ground arith
any-filter p x (y ∷ xs) ys e = ground (arith, any-filter p x xs ys)

chosen-local :
    (b l m : List Text) (r : MergeRegion)
    → r.changed_local ≡ true
    → r.changed_remote ≡ false
    → chosen b l m r ≡ slice r.local.0 r.local.1 l
chosen-local b l m r h k = go r.changed_local r.changed_remote _ _ _ _ h k
  where
    go :
        (x y z : Bool) (s t u : List Text)
        → x ≡ true
        → y ≡ false
        → (if x && (y && z) then s else if x then t else u) ≡ t
    go x y z s t u h k = ground arith

-- The region of a run is no conflict, and its lines are the run's.
chosen-Run :
    (base_at line_at : ℕ) (base lines : List Text) (g : Group) (hunks : List LineHunk) (at : Cursor)
    (base_lines remote_lines before : List Text) (u : Run base_at line_at base lines g hunks)
    → line_at ≡ length before
    → chosen base_lines (before ++ lines) remote_lines (region_of at g) ≡ u.added
unfolding region_of
chosen-Run base_at line_at base lines g hunks at base_lines remote_lines before u e =
    let range = side_range-Run base_at line_at base lines g hunks at u in
    chosen-local base_lines (before ++ lines) remote_lines (region_of at g)
      (any-filter (λ h. is_side h.side EMergeSide.local) u.first g.hunks u.more
        (u.all_local ∙ u.hunks_same))
      u.none_remote
    ∙ (ap (λ q. slice q.0 q.1 (before ++ lines)) range
        ∙ (ap (slice (line_at + length u.common) (line_at + length u.common + length u.added)) (
              ap (λ t. before ++ t) u.lines_same
              ∙ sym (append_assoc before u.common (u.added ++ u.lines_left)))
            ∙ slice-middle (before ++ u.common) u.added u.lines_left _ _
                (omega (arith, e, length-append before u.common)) refl))

-- The base lines before the group's region.
gap-Run :
    (base_at line_at : ℕ) (base lines : List Text) (g : Group) (hunks : List LineHunk)
    (before : List Text) (u : Run base_at line_at base lines g hunks)
    → base_at ≡ length before
    → slice base_at g.start (before ++ base) ≡ u.common
gap-Run base_at line_at base lines g hunks before u e =
    ap (λ t. slice base_at g.start (before ++ t)) u.base_same
    ∙ slice-middle before u.common (u.removed ++ u.base_left) base_at g.start e u.start_at

moved_on :
    (before text c r left : List Text)
    → text ≡ c ++ (r ++ left)
    → before ++ text ≡ (before ++ (c ++ r)) ++ left
moved_on before text c r left e =
    ap (λ t. before ++ t) (e ∙ sym (append_assoc c r left))
    ∙ sym (append_assoc before (c ++ r) left)

put_out :
    (out lines c a left gap part : List Text)
    → gap ≡ c
    → part ≡ a
    → lines ≡ c ++ (a ++ left)
    → ((out ++ gap) ++ part) ++ left ≡ out ++ lines
put_out out lines c a left gap part e f h =
    ap₂ (λ x y. ((out ++ x) ++ y) ++ left) e f
    ∙ (append_assoc (out ++ c) a left
        ∙ (append_assoc out c (a ++ left) ∙ ap (λ t. out ++ t) (sym h)))

pub length-on_side :
    (hunks : List LineHunk) → length (on_side EMergeSide.local hunks) ≡ length hunks
length-on_side [] = refl
length-on_side (h ∷ hunks) = omega (arith, length-on_side hunks)

-- What the loop over the regions puts out.
pub build_from-lines :
    (fuel : ℕ) (touching : Bool) (at : Cursor) (hunks : List LineHunk)
    (base lines before_base before_lines remote_lines : List Text) (base_at line_at index : ℕ)
    (o : Out)
    → length hunks ≤ fuel
    → base_at ≡ length before_base
    → line_at ≡ length before_lines
    → IsPatch base lines base_at line_at hunks
    → (build_from
        (before_base ++ base)
        (before_lines ++ lines)
        remote_lines
        (regions_from at (groups fuel touching (on_side EMergeSide.local hunks)))
        index
        base_at
        o).1.lines
      ≡ o.lines ++ lines
unfolding build_from groups region_of
build_from-lines fuel touching at [] base lines bb bl m base_at line_at index o f eb el p =
    ap (λ t. o.lines ++ t) (ap (λ n. drop n (bb ++ base)) eb ∙ (drop-length_append bb base ∙ p))
build_from-lines zero touching at (h ∷ hunks) base lines bb bl m base_at line_at index o f eb el p =
    absurd (omega (arith, f))
build_from-lines (suc fuel) touching at (h ∷ hunks) base lines bb bl m base_at line_at index o f eb
      el p =
    let (left, same, u) =
      gather-Run touching base_at line_at base lines (first_of (local_hunk h)) hunks
        (first-Run base_at line_at base lines h hunks p) in
    let g = (gather touching (first_of (local_hunk h)) (on_side EMergeSide.local hunks)).0 in
    let next = cursor_after (region_of at g) in
    let B = bb ++ base in
    let L = bl ++ lines in
    let o' = push (chosen B L m (region_of at g)) (push (slice base_at g.start B) o) in
    let fewer = (first-Gathered touching (local_hunk h) (on_side EMergeSide.local hunks)).fewer in
    ap
      (λ xs.
        (build_from B L m (regions_from next (groups fuel touching xs)) (suc index) g.end
          o').1.lines)
      same
    ∙ (ap
          (λ x.
            (build_from x L m
              (regions_from next (groups fuel touching (on_side EMergeSide.local left))) (suc index)
              g.end o').1.lines)
          (moved_on bb base u.common u.removed u.base_left u.base_same)
        ∙ (ap
              (λ x.
                (build_from ((bb ++ (u.common ++ u.removed)) ++ u.base_left) x m
                  (regions_from next (groups fuel touching (on_side EMergeSide.local left)))
                  (suc index) g.end o').1.lines)
              (moved_on bl lines u.common u.added u.lines_left u.lines_same)
            ∙ (build_from-lines fuel touching next left u.base_left u.lines_left
                  (bb ++ (u.common ++ u.removed)) (bl ++ (u.common ++ u.added)) m g.end
                  (line_at + length u.common + length u.added) (suc index) o'
                  (omega
                    (arith, f, fewer, ap length same, length-on_side left, length-on_side hunks))
                  (omega (
                    arith,
                    u.end_at,
                    eb,
                    length-append bb (u.common ++ u.removed),
                    length-append u.common u.removed,
                  ))
                  (omega (
                    arith,
                    el,
                    length-append bl (u.common ++ u.added),
                    length-append u.common u.added,
                  ))
                  u.rest
                ∙ put_out o.lines lines u.common u.added u.lines_left _ _
                    (gap-Run base_at line_at base lines g left bb u eb)
                    (chosen-Run base_at line_at base lines g left at B m bl u el) u.lines_same)))
