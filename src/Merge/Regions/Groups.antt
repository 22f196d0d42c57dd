-- ===== src/Merge/Regions/Groups.antt =====
-- The grouping of the hunks: every hunk is in a group, and the groups stand apart.
use obsync.Base.{
  ℕ, ◌≤◌, ◌<◌, ◌≡◌, refl, ◌∙◌, max, Bool, true, false, List, [], ◌∷◌, ◌++◌, length, arith,
  if◌then◌else◌, append_assoc, All, All-append, Bool-cases, inl, inr,
}
use obsync.Merge.Regions.{SideHunk, joins, Group, gather}

-- The hunks start in order, from `low` on.
abbrev pub AreSorted : ℕ → List SideHunk → Type 0
AreSorted low [] = Unit
AreSorted low (h ∷ hunks) = (low ≤ h.base.0) × AreSorted h.base.0 hunks

-- Every hunk ends by `high`.
abbrev pub EndBy : ℕ → List SideHunk → Type 0
EndBy high hunks = All (λ h. h.base.1 ≤ high) hunks

EndBy-more : (a b : ℕ) (hunks : List SideHunk) → a ≤ b → EndBy a hunks → EndBy b hunks
EndBy-more a b [] l e = tt
EndBy-more a b (h ∷ hunks) l e = (omega (arith, l, e.0), EndBy-more a b hunks l e.1)

-- The next hunk starts past a group that takes what touches it, and no earlier than any group's end.
abbrev pub IsPast : Bool → ℕ → List SideHunk → Type 0
IsPast touching end [] = Unit
IsPast touching end (h ∷ hunks) = if touching then end < h.base.0 else end ≤ h.base.0

-- What the inner loop does.
pub record Gathered (touching : Bool) (g : Group) (hunks : List SideHunk)
    (r : Group × List SideHunk) : Type 0 where
  pub all_there : r.0.hunks ++ r.1 ≡ g.hunks ++ hunks
  pub start_same : r.0.start ≡ g.start
  pub grown : g.end ≤ r.0.end
  pub ended : EndBy r.0.end r.0.hunks
  pub past : IsPast touching r.0.end r.1
  pub fewer : length r.1 ≤ length hunks

IsPast-joins :
    (touching : Bool) (h : SideHunk) (hunks : List SideHunk) (start end : ℕ)
    → joins h start end touching ≡ false
    → IsPast touching end (h ∷ hunks)
unfolding joins
IsPast-joins true h hunks start end e = ground arith
IsPast-joins false h hunks start end e = ground arith

pub gather-Gathered :
    (touching : Bool) (g : Group) (hunks : List SideHunk)
    → EndBy g.end g.hunks
    → Gathered touching g hunks (gather touching g hunks)
unfolding gather
gather-Gathered touching g [] e = record {
  all_there = refl;
  start_same = refl;
  grown = omega arith;
  ended = e;
  past = tt;
  fewer = omega arith;
}
gather-Gathered touching g (h ∷ hunks) e = elim (Bool-cases (joins h g.start g.end touching)) [
  | inl j ↦
      let m =
        gather-Gathered touching (record g { end = max g.end h.base.1; hunks = g.hunks ++ h ∷ [] })
          hunks
          (All-append (λ x. x.base.1 ≤ max g.end h.base.1) g.hunks (h ∷ [])
            (EndBy-more g.end (max g.end h.base.1) g.hunks (omega arith) e) (omega arith, tt)) in
      rw (j, gather)
        record {
          all_there = m.all_there ∙ append_assoc g.hunks (h ∷ []) hunks;
          start_same = m.start_same;
          grown = omega (arith, m.grown);
          ended = m.ended;
          past = m.past;
          fewer = omega (arith, m.fewer);
        }
  | inr j ↦
      rw (j, gather)
        record {
          all_there = refl;
          start_same = refl;
          grown = omega arith;
          ended = e;
          past = IsPast-joins touching h hunks g.start g.end j;
          fewer = omega arith;
        }
]
