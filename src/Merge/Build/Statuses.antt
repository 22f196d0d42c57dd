-- ===== src/Merge/Build/Statuses.antt =====
-- What a new session leaves open, what it puts in its text, and where its changes stand there.
use obsync.Base.{
  ℕ, suc, ◌≤◌, ◌≡◌, ◌≢◌, refl, ap, ap₂, ◌∙◌, ◌⊎◌, inl, inr, Bool, true, false, not, ◌&&◌, List, [],
  ◌∷◌, ◌++◌, map, append_assoc, Text, length, same, same_iff, if◌then◌else◌, arith, All, drop,
}
use obsync.Merge.Regions.{MergeRegion}
use obsync.Merge.Build.{
  MergeChange, ESideStatus, Out, build_from, clamp_change, build_session, push, slice, chosen,
  status_of, same_lines, join_lines,
}

same_lines-true : (xs ys : List Text) → same_lines xs ys ≡ true → xs ≡ ys
same_lines-true [] [] h = refl
same_lines-true [] (y ∷ ys) h = absurd (ground arith)
same_lines-true (x ∷ xs) [] h = absurd (ground arith)
same_lines-true (x ∷ xs) (y ∷ ys) h =
    let parts : (same x y ≡ true) × (same_lines xs ys ≡ true) = ground arith in
    ap₂ ◌∷◌ ((same_iff x y).0 parts.0) (same_lines-true xs ys parts.1)

same_lines_refl : (xs : List Text) → same_lines xs xs ≡ true
same_lines_refl [] = refl
same_lines_refl (x ∷ xs) = ground (arith, same_lines_refl xs)

same_lines-false : (xs ys : List Text) → same_lines xs ys ≡ false → xs ≢ ys
same_lines-false xs ys h e = ground (arith, same_lines_refl xs, ap (same_lines xs) e)

-- A side of a region that the session settles: where the side changed its lines, they are applied,
-- and the session's text has them.
abbrev pub IsSideTaken : Bool → ESideStatus → List Text → List Text → Type 0
IsSideTaken changed status mid lines =
    ((changed ≡ false) × (status ≡ ESideStatus.no_change))
    ⊎ ((changed ≡ true) × (status ≡ ESideStatus.applied) × (mid ≡ lines))

-- What a region becomes, from the sides that changed it and the lines of the base and of each: both
-- sides changed it to different lines, it is a conflict left open on both, and the text keeps the
-- base; or it is settled, and each side that changed it is taken.
abbrev pub IsDecided :
    Bool
    → Bool
    → List Text
    → List Text
    → List Text
    → List Text
    → Bool
    → ESideStatus
    → ESideStatus
    → Type 0
IsDecided changed_local changed_remote base here there mid conflict status_local status_remote =
    ((changed_local ≡ true)
      × (changed_remote ≡ true)
      × (here ≢ there)
      × (conflict ≡ true)
      × (status_local ≡ ESideStatus.open_change)
      × (status_remote ≡ ESideStatus.open_change)
      × (mid ≡ base))
    ⊎ (((changed_local ≡ false) ⊎ ((changed_remote ≡ false) ⊎ (here ≡ there)))
        × (conflict ≡ false)
        × IsSideTaken changed_local status_local mid here
        × IsSideTaken changed_remote status_remote mid there)

decided :
    (x y z : Bool) (base here there : List Text)
    → same_lines here there ≡ z
    → let conflict = x && (y && not z) in
      IsDecided x y base here there
        (if conflict then base else if x then here else there)
        conflict
        (status_of x conflict)
        (status_of y conflict)
decided true true true base here there e =
    let agreed = same_lines-true here there e in
    inr (inr (inr agreed), refl, inr (refl, refl, refl), inr (refl, refl, agreed))
decided true true false base here there e =
    inl (refl, refl, same_lines-false here there e, refl, refl, refl, refl)
decided true false z base here there e =
    inr (inr (inl refl), refl, inr (refl, refl, refl), inl (refl, refl))
decided false true z base here there e =
    inr (inl refl, refl, inl (refl, refl), inr (refl, refl, refl))
decided false false z base here there e = inr (inl refl, refl, inl (refl, refl), inl (refl, refl))

module _ (base_lines local_lines remote_lines : List Text) where
  -- The changes and the lines of a session, from a line of the base on: each region has its change,
  -- in order, and puts its lines between those of the base that no region covers.
  abbrev pub AreBuilt : ℕ → List MergeRegion → List MergeChange → List Text → Type 0
  AreBuilt cursor [] [] lines = lines ≡ drop cursor base_lines
  AreBuilt cursor [] (c ∷ changes) lines = ⊥
  AreBuilt cursor (r ∷ regions) [] lines = ⊥
  AreBuilt cursor (r ∷ regions) (c ∷ changes) lines =
      (mid : List Text) × (rest : List Text) × (lines
        ≡ slice cursor r.base.0 base_lines ++ (mid ++ rest))
      × ((c.base ≡ r.base) × (c.local ≡ r.local) × (c.remote ≡ r.remote))
      × IsDecided r.changed_local r.changed_remote (slice r.base.0 r.base.1 base_lines)
          (slice r.local.0 r.local.1 local_lines) (slice r.remote.0 r.remote.1 remote_lines) mid
          c.conflict c.status_local c.status_remote
      × AreBuilt r.base.1 regions changes rest

  build_from-AreBuilt :
      (n : ℕ) (regions : List MergeRegion) (index cursor : ℕ) (o : Out)
      → let built = build_from base_lines local_lines remote_lines regions index cursor o in
        (lines : List Text) × (built.1.lines ≡ o.lines ++ lines)
        × AreBuilt cursor regions (map (clamp_change n) built.0) lines
  unfolding build_from
  build_from-AreBuilt n [] index cursor o = (drop cursor base_lines, refl, refl)
  build_from-AreBuilt n (r ∷ regions) index cursor o =
      let before = slice cursor r.base.0 base_lines in
      let mid = chosen base_lines local_lines remote_lines r in
      let (rest, e, built) =
        build_from-AreBuilt n regions (suc index) r.base.1 (push mid (push before o)) in
      (
        before ++ (mid ++ rest),
        e ∙ append_assoc (o.lines ++ before) mid rest ∙ append_assoc o.lines before (mid ++ rest),
        (
          mid,
          rest,
          refl,
          (refl, refl, refl),
          decided r.changed_local r.changed_remote _ _ _ _ refl,
          built,
        ),
      )

  -- A new session has one change for each region, in order. Where both sides changed a region to
  -- different lines, the change is an open conflict and the text keeps the lines of the base;
  -- elsewhere each side that changed the region is applied, and the text has its lines. Between
  -- the regions, and after the last, the text has the lines of the base.
  pub build_session-AreBuilt :
      (regions : List MergeRegion)
      → let session = build_session base_lines local_lines remote_lines regions in
        (lines : List Text) × (session.text ≡ join_lines lines)
        × AreBuilt 0 regions session.changes lines
  unfolding build_session
  build_session-AreBuilt regions =
      let start : Out = record { lines = []; size = 0 } in
      let n =
        length
          (join_lines (build_from base_lines local_lines remote_lines regions 0 0 start).1.lines) in
      let (lines, e, built) = build_from-AreBuilt n regions 0 0 start in
      (lines, ap join_lines e, built)

-- A span in a text.
abbrev pub IsInside : ℕ → MergeChange → Type 0
IsInside n c = (c.result.from ≤ c.result.to) × (c.result.to ≤ n)

build_from-forward :
    (b l m : List Text) (regions : List MergeRegion) (index cursor : ℕ) (o : Out)
    → All (λ c. c.result.from ≤ c.result.to) (build_from b l m regions index cursor o).0
unfolding build_from
build_from-forward b l m [] index cursor o = tt
build_from-forward b l m (r ∷ regions) index cursor o =
    (omega arith, build_from-forward b l m regions (suc index) r.base.1 _)

clamped-IsInside :
    (n : ℕ) (changes : List MergeChange)
    → All (λ c. c.result.from ≤ c.result.to) changes
    → All (IsInside n) (map (clamp_change n) changes)
clamped-IsInside n [] h = tt
clamped-IsInside n (c ∷ changes) h =
    ((omega (arith, h.0), omega arith), clamped-IsInside n changes h.1)

-- Every change of a new session has its span in the session's text.
build_session-AreInside :
    (base_lines local_lines remote_lines : List Text) (regions : List MergeRegion)
    → All
        (IsInside (length (build_session base_lines local_lines remote_lines regions).text))
        (build_session base_lines local_lines remote_lines regions).changes
unfolding build_session
build_session-AreInside b l m regions =
    clamped-IsInside _ (build_from b l m regions 0 0 (record { lines = []; size = 0 })).0
      (build_from-forward b l m regions 0 0 (record { lines = []; size = 0 }))
