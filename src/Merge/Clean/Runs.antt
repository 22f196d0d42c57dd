-- ===== src/Merge/Clean/Runs.antt =====
-- The groups that one side's hunks form.
use obsync.Base.{
  ℕ, ◌+◌, ◌≡◌, refl, sym, ap, ap₂, ◌∙◌, subst, max, Bool, true, false, List, [], ◌∷◌, ◌++◌, Text,
  length, filter, any, arith, length-append, append_assoc, Bool-cases, inl, inr,
}
use obsync.Merge.Hunks.{LineHunk}
use obsync.Merge.Hunks.Patch.{IsPatch}
use obsync.Merge.Regions.{
  EMergeSide, is_side, SideHunk, on_side, Group, gather, first_of, joins, last_after, range_of,
  side_range, own_hunks, Cursor,
}

-- A group of one side's hunks, in the texts from two places on, and the hunks after it.
pub record Run (base_at line_at : ℕ) (base lines : List Text) (g : Group) (hunks : List LineHunk)
    : Type 0 where
  pub first : SideHunk
  pub more : List SideHunk
  pub hunks_same : g.hunks ≡ first ∷ more
  pub all_local : own_hunks EMergeSide.local g ≡ g.hunks
  pub none_remote : any (λ h. is_side h.side EMergeSide.remote) g.hunks ≡ false
  pub common : List Text
  pub removed : List Text
  pub added : List Text
  pub base_left : List Text
  pub lines_left : List Text
  pub base_same : base ≡ common ++ (removed ++ base_left)
  pub lines_same : lines ≡ common ++ (added ++ lines_left)
  pub start_at : g.start ≡ base_at + length common
  pub end_at : g.end ≡ base_at + length common + length removed
  pub first_base : first.base.0 ≡ g.start
  pub first_line : first.lines.0 ≡ line_at + length common
  pub last_base : (last_after first more).base.1 ≡ g.end
  pub last_line : (last_after first more).lines.1 ≡ line_at + length common + length added
  pub rest : IsPatch base_left lines_left g.end (line_at + length common + length added) hunks

filter-snoc :
    (p : SideHunk → Bool) (xs : List SideHunk) (x : SideHunk)
    → p x ≡ true
    → filter p (xs ++ x ∷ []) ≡ filter p xs ++ x ∷ []
filter-snoc p [] x e = rw e refl
filter-snoc p (y ∷ xs) x e = ground (arith, filter-snoc p xs x)

any-snoc :
    (p : SideHunk → Bool) (xs : List SideHunk) (x : SideHunk)
    → p x ≡ false
    → any p xs ≡ false
    → any p (xs ++ x ∷ []) ≡ false
any-snoc p [] x e h = ground arith
any-snoc p (y ∷ xs) x e h = ground (arith, any-snoc p xs x)

last_after-snoc :
    (first : SideHunk) (more : List SideHunk) (x : SideHunk) → last_after first (more ++ x ∷ []) ≡ x
last_after-snoc first [] x = refl
last_after-snoc first (y ∷ more) x = last_after-snoc y more x

abbrev pub local_hunk : LineHunk → SideHunk
local_hunk h = record { side = EMergeSide.local; base = h.base; lines = h.lines }

-- A group of the first hunk alone.
pub first-Run :
    (base_at line_at : ℕ) (base lines : List Text) (h : LineHunk) (hunks : List LineHunk)
    → IsPatch base lines base_at line_at (h ∷ hunks)
    → Run base_at line_at base lines (first_of (local_hunk h)) hunks
first-Run base_at line_at base lines h hunks (c, r, a, b, l, eb, el, hb, hl, p) =
    let start : h.base.0 ≡ base_at + length c = ap (λ q. q.0) hb in
    let end : h.base.1 ≡ base_at + length c + length r = ap (λ q. q.1) hb in
    let last : h.lines.1 ≡ line_at + length c + length a = ap (λ q. q.1) hl in
    record {
      first = local_hunk h;
      more = [];
      hunks_same = refl;
      all_local = refl;
      none_remote = refl;
      common = c;
      removed = r;
      added = a;
      base_left = b;
      lines_left = l;
      base_same = eb;
      lines_same = el;
      start_at = start;
      end_at = omega (arith, start, end);
      first_base = refl;
      first_line = ap (λ q. q.0) hl;
      last_base = omega (arith, start, end);
      last_line = last;
      rest =
          subst (λ n. IsPatch b l n (line_at + length c + length a) hunks)
            (omega (arith, start, end)) (subst (λ n. IsPatch b l h.base.1 n hunks) last p);
    }

empty_lines : (xs : List Text) → length xs ≡ 0 → xs ≡ []
empty_lines [] e = refl
empty_lines (x ∷ xs) e = absurd (omega (arith, e))

-- A hunk joins a group only where nothing lies between.
joins-start :
    (touching : Bool) (h : SideHunk) (start end n : ℕ)
    → h.base.0 ≡ end + n
    → joins h start end touching ≡ true
    → n ≡ 0
unfolding joins
joins-start touching h start end n e j = ground arith

joined_text :
    (c r t k s z : List Text) → k ≡ [] → t ≡ k ++ (s ++ z) → c ++ (r ++ t) ≡ c ++ ((r ++ s) ++ z)
joined_text c r t k s z e f =
    ap (λ x. c ++ (r ++ x)) (f ∙ ap (λ x. x ++ (s ++ z)) e)
    ∙ ap (λ x. c ++ x) (sym (append_assoc r s z))

pub joined-Run :
    (touching : Bool) (base_at line_at : ℕ) (base lines : List Text) (g : Group) (h : LineHunk)
    (hunks : List LineHunk)
    → Run base_at line_at base lines g (h ∷ hunks)
    → joins (local_hunk h) g.start g.end touching ≡ true
    → Run base_at line_at base lines
        (record g { end = max g.end h.base.1; hunks = g.hunks ++ local_hunk h ∷ [] })
        hunks
joined-Run touching base_at line_at base lines g h hunks u j =
    let (k, r, a, b, l, eb, el, hb, hl, p) = u.rest in
    let none_between : length k ≡ 0 =
      joins-start touching (local_hunk h) g.start g.end (length k) (ap (λ q. q.0) hb) j in
    let gap = empty_lines k none_between in
    let end : h.base.1 ≡ g.end + length r = omega (arith, ap (λ q. q.1) hb, none_between) in
    let bigger : max g.end h.base.1 ≡ h.base.1 = omega (arith, end) in
    let last : h.lines.1 ≡ line_at + length u.common + length (u.added ++ a) =
      omega (arith, ap (λ q. q.1) hl, none_between, length-append u.added a) in
    record {
      first = u.first;
      more = u.more ++ local_hunk h ∷ [];
      hunks_same = ap (λ t. t ++ local_hunk h ∷ []) u.hunks_same;
      all_local =
          filter-snoc (λ x. is_side x.side EMergeSide.local) g.hunks (local_hunk h) refl
          ∙ ap (λ t. t ++ local_hunk h ∷ []) u.all_local;
      none_remote =
          any-snoc (λ x. is_side x.side EMergeSide.remote) g.hunks (local_hunk h) refl
            u.none_remote;
      common = u.common;
      removed = u.removed ++ r;
      added = u.added ++ a;
      base_left = b;
      lines_left = l;
      base_same = u.base_same ∙ joined_text u.common u.removed u.base_left k r b gap eb;
      lines_same = u.lines_same ∙ joined_text u.common u.added u.lines_left k a l gap el;
      start_at = u.start_at;
      end_at = omega (arith, bigger, end, u.end_at, length-append u.removed r);
      first_base = u.first_base;
      first_line = u.first_line;
      last_base = ap (λ x. x.base.1) (last_after-snoc u.first u.more (local_hunk h)) ∙ sym bigger;
      last_line = ap (λ x. x.lines.1) (last_after-snoc u.first u.more (local_hunk h)) ∙ last;
      rest =
          subst (λ n. IsPatch b l n (line_at + length u.common + length (u.added ++ a)) hunks)
            (sym bigger) (subst (λ n. IsPatch b l h.base.1 n hunks) last p);
    }

-- The inner loop keeps a run, and leaves hunks of the same side.
pub gather-Run :
    (touching : Bool) (base_at line_at : ℕ) (base lines : List Text) (g : Group)
    (hunks : List LineHunk)
    → Run base_at line_at base lines g hunks
    → (left : List LineHunk) × ((gather touching g (on_side EMergeSide.local hunks)).1
        ≡ on_side EMergeSide.local left)
      × Run base_at line_at base lines (gather touching g (on_side EMergeSide.local hunks)).0 left
unfolding gather
gather-Run touching base_at line_at base lines g [] u = ([], refl, u)
gather-Run touching base_at line_at base lines g (h ∷ hunks) u =
    elim (Bool-cases (joins (local_hunk h) g.start g.end touching)) [
      | inl j ↦
          rw (j, gather)
            (gather-Run touching base_at line_at base lines
              (record g { end = max g.end h.base.1; hunks = g.hunks ++ local_hunk h ∷ [] }) hunks
              (joined-Run touching base_at line_at base lines g h hunks u j))
      | inr j ↦ rw (j, gather) (h ∷ hunks, refl, u)
    ]

-- The lines of a run, as `sideRange` finds them.
pub side_range-Run :
    (base_at line_at : ℕ) (base lines : List Text) (g : Group) (hunks : List LineHunk) (at : Cursor)
    → (u : Run base_at line_at base lines g hunks)
    → side_range EMergeSide.local at g
      ≡ (line_at + length u.common, line_at + length u.common + length u.added)
unfolding side_range
side_range-Run base_at line_at base lines g hunks at u =
    ap (λ xs. range_of EMergeSide.local at g.start g.end xs) (u.all_local ∙ u.hunks_same)
    ∙ ap₂ (λ x y. (x, y)) (omega (arith, u.first_line, u.first_base))
        (omega (arith, u.last_line, u.last_base))
