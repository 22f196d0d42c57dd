-- ===== src/Sync/Diff/Kept.antt =====
-- What pairing moves keeps of the lists.
use obsync.Base.{
  ◌≡◌, refl, ap, ap₂, ◌∙◌, inl, inr, Bool, true, false, not, ◌&&◌, ◌||◌, some, List, [], ◌∷◌, ◌++◌,
  arith, Text, text_dec, same, filter, any, All, Option-cases,
}
use obsync.Base.Dict
use obsync.Base.Dict.{Dict}
use obsync.Sync.Types.{FileChange, Conflict, Side, Move, EChangeType}
use obsync.Sync.Moves.{
  Open, change, by_path, values, follow_remote, follow_local, moves_on, has_path,
}
use obsync.Sync.Moves.Paths.{has_path-append}

abbrev pub has_change : Text → List FileChange → Bool
has_change path changes = any (λ c. same c.path path) changes

abbrev pub has_conflict : Text → List Conflict → Bool
has_conflict path conflicts = any (λ c. same c.path path) conflicts

abbrev pub has_target : Text → List Move → Bool
has_target path moves = any (λ m. same m.to path) moves

-- The paths of the open conflicts, and of the remote changes.
abbrev pub has_key : Text → Dict Text Conflict → Bool
has_key path m = any (λ e. same e.0 path) m

abbrev pub is_kept : Text → Open → Bool
is_kept path o = has_key path o.0 || has_change path o.1

module _ (path : Text) where
  key-insert :
      (k : Text) (c : Conflict) (m : Dict Text Conflict)
      → has_key path (Dict.insert text_dec k c m) ≡ (same k path || has_key path m)
  unfolding Dict.insert
  key-insert k c [] = refl
  key-insert k c ((j, d) ∷ m) = ground (arith, key-insert k c m)

  key-erase :
      (k : Text) (m : Dict Text Conflict)
      → has_key path (Dict.erase text_dec k m) ≡ (not (same k path) && has_key path m)
  unfolding Dict.erase
  key-erase k [] = ground arith
  key-erase k ((j, d) ∷ m) = ground (arith, key-erase k m)

  key-found :
      (c : Conflict) (m : Dict Text Conflict)
      → Dict.lookup text_dec path m ≡ some c
      → has_key path m ≡ true
  unfolding Dict.lookup
  key-found c [] e = cc
  key-found c ((j, d) ∷ m) e = ground (arith, key-found c m)

  pub key-by_path :
      (conflicts : List Conflict) (m : Dict Text Conflict)
      → has_key path (by_path conflicts m) ≡ (has_conflict path conflicts || has_key path m)
  unfolding by_path
  key-by_path [] m = refl
  key-by_path (c ∷ conflicts) m =
      key-by_path conflicts (Dict.insert text_dec c.path c m)
      ∙ (rw (key-insert c.path c m) (ground arith))

  change-append :
      (cs ds : List FileChange)
      → has_change path (cs ++ ds) ≡ (has_change path cs || has_change path ds)
  change-append [] ds = refl
  change-append (c ∷ cs) ds = ground (arith, change-append cs ds)

  kept-follow :
      (from : Text) (t : EChangeType) (c : Conflict) (o : Open)
      → Dict.lookup text_dec from o.0 ≡ some c
      → is_kept path (Dict.erase text_dec from o.0, o.1 ++ change from t c ∷ []) ≡ is_kept path o
  unfolding change
  kept-follow from t c o e =
      ap₂ (λ a b. a || b) (key-erase from o.0) (change-append o.1 (change from t c ∷ []))
      ∙ ground (arith, e, key-found c o.0, ap (λ k. Dict.lookup text_dec k o.0))

  pub kept-follow_remote :
      (pairs : List (Text × Text)) (o : Open)
      → is_kept path (follow_remote pairs o) ≡ is_kept path o
  unfolding follow_remote
  kept-follow_remote [] o = refl
  kept-follow_remote ((from, to) ∷ pairs) o = elim (Option-cases (Dict.lookup text_dec from o.0)) [
    | inl e ↦ rw (e, follow_remote) (kept-follow_remote pairs o)
    | inr (c, e) ↦
        rw (e, follow_remote)
          (kept-follow_remote pairs _ ∙ kept-follow from EChangeType.remote_delete c o e)
  ]

  pub kept-follow_local :
      (pairs : List (Text × Text)) (o : Open) (held : List Text)
      → is_kept path (follow_local pairs o held).0 ≡ is_kept path o
  unfolding follow_local
  kept-follow_local [] o held = refl
  kept-follow_local ((from, to) ∷ pairs) o held =
      elim (Option-cases (Dict.lookup text_dec from o.0)) [
        | inl e ↦ rw (e, follow_local) (kept-follow_local pairs o held)
        | inr (c, e) ↦
            rw (e, follow_local)
              (kept-follow_local pairs _ _ ∙ kept-follow from EChangeType.remote_modify c o e)
      ]

  pub target-moves_on :
      (side : Side) (pairs : List (Text × Text))
      → has_target path (moves_on side pairs) ≡ any (λ p. same p.1 path) pairs
  target-moves_on side [] = refl
  target-moves_on side (p ∷ pairs) = ground (arith, target-moves_on side pairs)

  pub target-append :
      (ms ns : List Move) → has_target path (ms ++ ns) ≡ (has_target path ms || has_target path ns)
  target-append [] ns = refl
  target-append (m ∷ ms) ns = ground (arith, target-append ms ns)

  -- A path is held back only if a move ends there.
  pub held-follow_local :
      (pairs : List (Text × Text)) (o : Open) (held : List Text)
      → (has_path path (follow_local pairs o held).1
          && not (has_path path held || any (λ p. same p.1 path) pairs))
        ≡ false
  unfolding follow_local
  held-follow_local [] o held = ground arith
  held-follow_local ((from, to) ∷ pairs) o held =
      elim (Option-cases (Dict.lookup text_dec from o.0)) [
        | inl e ↦ rw (e, follow_local) (ground (arith, held-follow_local pairs o held))
        | inr (c, e) ↦
            let o' : Open =
              (Dict.erase text_dec from o.0, o.1 ++ change from EChangeType.remote_modify c ∷ []) in
            rw (e, follow_local)
              (ground (
                arith,
                held-follow_local pairs o' (held ++ to ∷ []),
                has_path-append path held (to ∷ []),
              ))
      ]

  pub change-filter :
      (held : List Text) (changes : List FileChange)
      → has_change path (filter (λ c. not (has_path c.path held)) changes)
        ≡ (not (has_path path held) && has_change path changes)
  change-filter held [] = ground arith
  change-filter held (c ∷ changes) =
      ground (arith, change-filter held changes, ap (λ p. has_path p held))

  pub conflict-values :
      (m : Dict Text Conflict)
      → All (λ (e : Text × Conflict). e.1.path ≡ e.0) m
      → has_conflict path (values m) ≡ has_key path m
  conflict-values [] h = refl
  conflict-values ((k, c) ∷ m) h = ground (arith, h.0, conflict-values m h.1)

-- The entries of the conflicts that are left are kept under their paths.
abbrev pub IsKeyed : Dict Text Conflict → Type 0
IsKeyed = All (λ (e : Text × Conflict). e.1.path ≡ e.0)

insert-IsKeyed :
    (c : Conflict) (m : Dict Text Conflict) → IsKeyed m → IsKeyed (Dict.insert text_dec c.path c m)
unfolding Dict.insert
insert-IsKeyed c [] h = (refl, tt)
insert-IsKeyed c ((j, d) ∷ m) h = ground (arith, h, insert-IsKeyed c m h.1)

pub by_path-IsKeyed :
    (conflicts : List Conflict) (m : Dict Text Conflict) → IsKeyed m → IsKeyed (by_path conflicts m)
unfolding by_path
by_path-IsKeyed [] m h = h
by_path-IsKeyed (c ∷ conflicts) m h =
    by_path-IsKeyed conflicts (Dict.insert text_dec c.path c m) (insert-IsKeyed c m h)

erase-IsKeyed : (k : Text) (m : Dict Text Conflict) → IsKeyed m → IsKeyed (Dict.erase text_dec k m)
unfolding Dict.erase
erase-IsKeyed k [] h = tt
erase-IsKeyed k ((j, d) ∷ m) h = ground (arith, h, erase-IsKeyed k m h.1)

pub follow_remote-IsKeyed :
    (pairs : List (Text × Text)) (o : Open) → IsKeyed o.0 → IsKeyed (follow_remote pairs o).0
unfolding follow_remote
follow_remote-IsKeyed [] o h = h
follow_remote-IsKeyed ((from, to) ∷ pairs) o h =
    elim (Option-cases (Dict.lookup text_dec from o.0)) [
      | inl e ↦ rw (e, follow_remote) (follow_remote-IsKeyed pairs o h)
      | inr (c, e) ↦
          rw (e, follow_remote) (follow_remote-IsKeyed pairs _ (erase-IsKeyed from o.0 h))
    ]

pub follow_local-IsKeyed :
    (pairs : List (Text × Text)) (o : Open) (held : List Text)
    → IsKeyed o.0
    → IsKeyed (follow_local pairs o held).0.0
unfolding follow_local
follow_local-IsKeyed [] o held h = h
follow_local-IsKeyed ((from, to) ∷ pairs) o held h =
    elim (Option-cases (Dict.lookup text_dec from o.0)) [
      | inl e ↦ rw (e, follow_local) (follow_local-IsKeyed pairs o held h)
      | inr (c, e) ↦
          rw (e, follow_local) (follow_local-IsKeyed pairs _ _ (erase-IsKeyed from o.0 h))
    ]
