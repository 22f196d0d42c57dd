-- ===== src/Merge/Clean/Unchanged.antt =====
-- The whole merge of a text that one side left as it was.
use obsync.Base.{
  ℕ, ◌≤◌, ◌≡◌, refl, sym, ap, ap₂, ◌∙◌, subst, Bool, true, false, ◌||◌, Option, none, some, List,
  [], ◌∷◌, ◌++◌, Text, length, ◌==◌, if◌then◌else◌, arith, append_assoc, append-nil, All,
  All-append, Bool-cases, inl, inr, ==_iff,
}
use obsync.Merge.Hunks.{LineHunk, ArrayChange, hunks_from, hunks_from_changes}
use obsync.Merge.Hunks.Patch.{IsPatch, olds, news, hunks_from_changes-IsPatch}
use obsync.Merge.Anchored.{Differ}
use obsync.Merge.Regions.{
  EMergeSide, SideHunk, on_side, insert_hunk, sort_onto, sort_hunks, groups, three_way_regions,
  Cursor, regions_from,
}
use obsync.Merge.Regions.Groups.{AreSorted}
use obsync.Merge.Build.{build_session, build_from, join_lines, split_lines, prepend, Out}
use obsync.Merge.Whole.{side_hunks, to_lf, to_lines, build_merge_session}
use obsync.Merge.Clean.Kept.{build_from-lines, length-on_side}

insert_hunk-last :
    (h : SideHunk) (sorted : List SideHunk)
    → All (λ x. x.base.0 ≤ h.base.0) sorted
    → insert_hunk h sorted ≡ sorted ++ h ∷ []
insert_hunk-last h [] a = refl
insert_hunk-last h (g ∷ sorted) a = ground (arith, insert_hunk-last h sorted a.1)

All-le :
    (a b : ℕ) (xs : List SideHunk) → a ≤ b → All (λ x. x.base.0 ≤ a) xs → All (λ x. x.base.0 ≤ b) xs
All-le a b [] l h = tt
All-le a b (x ∷ xs) l h = (omega (arith, l, h.0), All-le a b xs l h.1)

-- Hunks that are in order stay as they are.
sort_onto-sorted :
    (low : ℕ) (hunks sorted : List SideHunk)
    → All (λ x. x.base.0 ≤ low) sorted
    → AreSorted low hunks
    → sort_onto hunks sorted ≡ sorted ++ hunks
sort_onto-sorted low [] sorted a s = sym (append-nil sorted)
sort_onto-sorted low (h ∷ hunks) sorted a s =
    let below = All-le low h.base.0 sorted s.0 a in
    ap (sort_onto hunks) (insert_hunk-last h sorted below)
    ∙ (sort_onto-sorted h.base.0 hunks (sorted ++ h ∷ [])
          (All-append (λ x. x.base.0 ≤ h.base.0) sorted (h ∷ []) below (omega arith, tt)) s.1
        ∙ append_assoc sorted (h ∷ []) hunks)

AreSorted-less : (a b : ℕ) (hunks : List SideHunk) → a ≤ b → AreSorted b hunks → AreSorted a hunks
AreSorted-less a b [] l s = tt
AreSorted-less a b (h ∷ hunks) l s = (omega (arith, l, s.0), s.1)

IsPatch-AreSorted :
    (hunks : List LineHunk) (base lines : List Text) (base_at line_at : ℕ)
    → IsPatch base lines base_at line_at hunks
    → AreSorted base_at (on_side EMergeSide.local hunks)
IsPatch-AreSorted [] base lines base_at line_at p = tt
IsPatch-AreSorted (h ∷ hunks) base lines base_at line_at (c, r, a, b, l, eb, el, hb, hl, p) = (
  omega (arith, ap (λ q. q.0) hb),
  AreSorted-less h.base.0 h.base.1 (on_side EMergeSide.local hunks)
      (omega (arith, ap (λ q. q.0) hb, ap (λ q. q.1) hb))
      (IsPatch-AreSorted hunks b l h.base.1 h.lines.1 p),
)

one_side :
    (hunks : List LineHunk)
    → AreSorted 0 (on_side EMergeSide.local hunks)
    → sort_hunks (on_side EMergeSide.local hunks ++ []) ≡ on_side EMergeSide.local hunks
one_side hunks s =
    ap sort_hunks (append-nil (on_side EMergeSide.local hunks))
    ∙ sort_onto-sorted 0 (on_side EMergeSide.local hunks) [] tt s

-- The result of a session for a patch of the base into the local lines, with no hunk on the remote side, is the local lines: every region is the local side's, and what lies between is common to both.
pub build_session_unchanged :
    (hunks : List LineHunk) (base_lines local_lines remote_lines : List Text) (touching : Bool)
    → IsPatch base_lines local_lines 0 0 hunks
    → (build_session base_lines local_lines remote_lines (three_way_regions hunks [] touching)).text
      ≡ join_lines local_lines
unfolding build_session
build_session_unchanged hunks b l m touching p =
    let c : Cursor = record { base = 0; local = 0; remote = 0 } in
    let o : Out = record { lines = []; size = 0 } in
    let xs = on_side EMergeSide.local hunks in
    ap join_lines (
      ap (λ ys. (build_from b l m (regions_from c (groups (length ys) touching ys)) 0 0 o).1.lines)
        (one_side hunks (IsPatch-AreSorted hunks b l 0 0 p))
      ∙ build_from-lines (length xs) touching c hunks b l [] [] m 0 0 0 o
          (omega (arith, length-on_side hunks)) refl refl p)

join-prepend :
    (c : ℕ) (lines : List Text)
    → (length lines == 0) ≡ false
    → join_lines (prepend c lines) ≡ c ∷ join_lines lines
join-prepend c [] e = ground arith
join-prepend c (x ∷ []) e = refl
join-prepend c (x ∷ y ∷ lines) e = refl

split_some : (s : Text) → (length (split_lines s) == 0) ≡ false
split_some [] = refl
split_some (c ∷ s) = if_some (c == 10) (split_lines s)
  where
    if_some :
        (b : Bool) (lines : List Text)
        → (length (if b then [] ∷ lines else prepend c lines) == 0) ≡ false
    if_some true lines = ground arith
    if_some false [] = refl
    if_some false (x ∷ lines) = ground arith

join-empty_line :
    (lines : List Text)
    → (length lines == 0) ≡ false
    → join_lines ([] ∷ lines) ≡ 10 ∷ join_lines lines
join-empty_line [] e = ground arith
join-empty_line (x ∷ lines) e = refl

join-split : (s : Text) → join_lines (split_lines s) ≡ s
join-split [] = refl
join-split (c ∷ s) = elim (Bool-cases (c == 10)) [
  | inl e ↦ rw e (
      join-empty_line (split_lines s) (split_some s)
      ∙ ap₂ (λ x y. x ∷ y) (sym ((==_iff c 10).0 e)) (join-split s))
  | inr e ↦ rw e (join-prepend c (split_lines s) (split_some s) ∙ ap (λ t. c ∷ t) (join-split s))
]

-- What the differ answers for two lists of lines is an edit script between them.
abbrev pub IsScript : List Text → List Text → Option (List ArrayChange) → Type 0
IsScript a b none = Unit
IsScript a b (some changes) = (olds changes ≡ a) × (news changes ≡ b)

side_hunks-some :
    (diff : Differ) (b l : List Text) (changes : List ArrayChange)
    → diff b l ≡ some changes
    → side_hunks diff b l ≡ hunks_from_changes changes 0 0
unfolding side_hunks
side_hunks-some diff b l changes e = rw (e, side_hunks) refl

no_hunks :
    (changes : List ArrayChange) (base_at line_at : ℕ)
    → All (λ c. (c.added || c.removed) ≡ false) changes
    → hunks_from changes base_at line_at none ≡ []
unfolding hunks_from
no_hunks [] base_at line_at h = refl
no_hunks (c ∷ changes) base_at line_at h = rw h.0 (no_hunks changes _ _ h.1)

-- A merge whose remote text is the base gives the local text, its line ends made newlines, when the differ answers a script for the local text and one of no change for two equal texts.
pub merge_unchanged :
    (diff : Differ) (base here : Text) (changes same : List ArrayChange)
    → diff (to_lines base) (to_lines here) ≡ some changes
    → IsScript (to_lines base) (to_lines here) (some changes)
    → diff (to_lines base) (to_lines base) ≡ some same
    → All (λ c. (c.added || c.removed) ≡ false) same
    → (build_merge_session diff base here base).text ≡ to_lf here
unfolding build_merge_session
merge_unchanged diff base here changes same e s f k =
    let b = to_lines base in
    let l = to_lines here in
    ap₂ (λ x y. (build_session b l b (three_way_regions x y true)).text)
      (side_hunks-some diff b l changes e) (side_hunks-some diff b b same f ∙ no_hunks same 0 0 k)
    ∙ (build_session_unchanged (hunks_from_changes changes 0 0) b l b true (
          subst (λ t. IsPatch t l 0 0 (hunks_from_changes changes 0 0)) s.0
            (subst (λ t. IsPatch (olds changes) t 0 0 (hunks_from_changes changes 0 0)) s.1
              (hunks_from_changes-IsPatch changes 0 0)))
        ∙ join-split (to_lf here))
