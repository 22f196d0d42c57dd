-- ===== src/Sync/Diff/Safety.antt =====
-- What puts a path on a list of the whole comparison, with moves paired.
use obsync.Base.{
  ◌≡◌, refl, sym, subst, ◌⊎◌, inl, inr, some, List, [], ◌∷◌, ◌++◌, arith, Text, text_dec, ite, All,
  All-append, All-filter, Option-cases,
}
use obsync.Base.Dict
use obsync.Base.Dict.{Dict}
use obsync.Sync.Types.{FileChange, Conflict, Side, Move, DiffResult, EChangeType}
use obsync.Sync.Moves.{
  Unpaired, Open, change, by_path, values, follow_remote, follow_local, moves_on, pair_moves,
  gone_remotely, fresh_remotely, gone_locally, fresh_locally,
}
use obsync.Sync.Pairing.{pair_up}
use obsync.Sync.Diff.{DiffInput, files_of, all_paths, compare, diff}
use obsync.Sync.Diff.Sound.{IsPush, IsPull, IsContested, IsConverged, IsSound, compare-IsSound}

-- A move starts at the path.
abbrev pub IsMovedFrom : Text → List Move → Type 0
IsMovedFrom path [] = ⊥
IsMovedFrom path (m ∷ moves) = (m.from ≡ path) ⊎ IsMovedFrom path moves

IsMovedFrom-left :
    (path : Text) (ms ns : List Move) → IsMovedFrom path ms → IsMovedFrom path (ms ++ ns)
IsMovedFrom-left path [] ns h = elim h [ ]
IsMovedFrom-left path (m ∷ ms) ns (inl e) = inl e
IsMovedFrom-left path (m ∷ ms) ns (inr h) = inr (IsMovedFrom-left path ms ns h)

IsMovedFrom-right :
    (path : Text) (ms ns : List Move) → IsMovedFrom path ns → IsMovedFrom path (ms ++ ns)
IsMovedFrom-right path [] ns h = h
IsMovedFrom-right path (m ∷ ms) ns h = inr (IsMovedFrom-right path ms ns h)

-- The pairs are moves that start at their first paths.
abbrev AreMoves : List Move → List (Text × Text) → Type 0
AreMoves moves = All (λ p. IsMovedFrom p.0 moves)

AreMoves-imp :
    (ms ns : List Move)
    → ((path : Text) → IsMovedFrom path ms → IsMovedFrom path ns)
    → (pairs : List (Text × Text)) → AreMoves ms pairs
    → AreMoves ns pairs
AreMoves-imp ms ns f [] h = tt
AreMoves-imp ms ns f (p ∷ pairs) h = (f p.0 h.0, AreMoves-imp ms ns f pairs h.1)

moves_on-AreMoves :
    (side : Side) (pairs : List (Text × Text)) → AreMoves (moves_on side pairs) pairs
moves_on-AreMoves side [] = tt
moves_on-AreMoves side (p ∷ pairs) = (
  inl refl,
  AreMoves-imp (moves_on side pairs) (moves_on side (p ∷ pairs)) (λ path h. inr h) pairs
      (moves_on-AreMoves side pairs),
)

All-ite {ℓ κ μ} :
    {A : Type ℓ} {C : Type μ} (P : A → Type κ) (d : Dec C) (xs ys : List A)
    → (C → All P xs)
    → ((C → ⊥) → All P ys)
    → All P (ite d xs ys)
All-ite P (yes c) xs ys f g = f c
All-ite P (no n) xs ys f g = g n

module _ (x : DiffInput) where
  -- A pulled path: changed there alone, or contested and the start of a move that the other side's
  -- edit follows.
  abbrev pub IsPullSafe : List Move → FileChange → Type 0
  IsPullSafe moves c = IsPull x c.path ⊎ (IsContested x c.path × IsMovedFrom c.path moves)

  -- An open conflict, kept under its path.
  abbrev IsOpen : Text × Conflict → Type 0
  IsOpen e = (e.1.path ≡ e.0) × IsContested x e.0

  insert-IsOpen :
      (k : Text) (c : Conflict) (m : Dict Text Conflict)
      → IsOpen (k, c)
      → All IsOpen m
      → All IsOpen (Dict.insert text_dec k c m)
  unfolding Dict.insert
  insert-IsOpen k c [] h a = (h, tt)
  insert-IsOpen k c ((j, d) ∷ m) h a =
      All-ite IsOpen (text_dec j k) _ _ (λ e. (subst (λ t. IsOpen (t, c)) (sym e) h, a.1))
        (λ n. (a.0, insert-IsOpen k c m h a.1))

  erase-IsOpen :
      (k : Text) (m : Dict Text Conflict) → All IsOpen m → All IsOpen (Dict.erase text_dec k m)
  unfolding Dict.erase
  erase-IsOpen k [] a = tt
  erase-IsOpen k ((j, d) ∷ m) a =
      All-ite IsOpen (text_dec j k) _ _ (λ e. erase-IsOpen k m a.1)
        (λ n. (a.0, erase-IsOpen k m a.1))

  lookup-IsContested :
      (k : Text) (c : Conflict) (m : Dict Text Conflict)
      → All IsOpen m
      → Dict.lookup text_dec k m ≡ some c
      → IsContested x k
  unfolding Dict.lookup
  lookup-IsContested k c [] a e = cc
  lookup-IsContested k c ((j, d) ∷ m) a e = elim (text_dec j k) [
    | yes f ↦ subst (λ t. IsContested x t) f a.0.1
    | no n ↦ lookup-IsContested k c m a.1 (ground arith)
  ]

  by_path-IsOpen :
      (conflicts : List Conflict) (m : Dict Text Conflict)
      → All (λ (c : Conflict). IsContested x c.path) conflicts
      → All IsOpen m
      → All IsOpen (by_path conflicts m)
  unfolding by_path
  by_path-IsOpen [] m h a = a
  by_path-IsOpen (c ∷ conflicts) m h a =
      by_path-IsOpen conflicts (Dict.insert text_dec c.path c m) h.1
        (insert-IsOpen c.path c m (refl, h.0) a)

  values-IsContested :
      (m : Dict Text Conflict)
      → All IsOpen m
      → All (λ (c : Conflict). IsContested x c.path) (values m)
  values-IsContested [] a = tt
  values-IsContested ((k, c) ∷ m) a =
      (subst (λ t. IsContested x t) (sym a.0.0) a.0.1, values-IsContested m a.1)

  -- The conflicts that are left are open, and every remote change is safe to pull.
  abbrev IsKept : List Move → Open → Type 0
  IsKept moves o = All IsOpen o.0 × All (IsPullSafe moves) o.1

  follow-IsKept :
      (moves : List Move) (from : Text) (t : EChangeType) (c : Conflict) (o : Open)
      → IsMovedFrom from moves
      → Dict.lookup text_dec from o.0 ≡ some c
      → IsKept moves o
      → IsKept moves (Dict.erase text_dec from o.0, o.1 ++ change from t c ∷ [])
  unfolding change
  follow-IsKept moves from t c o m e k = (
    erase-IsOpen from o.0 k.0,
    All-append (IsPullSafe moves) o.1 _ k.1 (inr (lookup-IsContested from c o.0 k.0 e, m), tt),
  )

  follow_remote-IsKept :
      (moves : List Move) (pairs : List (Text × Text)) (o : Open)
      → AreMoves moves pairs
      → IsKept moves o
      → IsKept moves (follow_remote pairs o)
  unfolding follow_remote
  follow_remote-IsKept moves [] o a k = k
  follow_remote-IsKept moves ((from, to) ∷ pairs) o a k =
      elim (Option-cases (Dict.lookup text_dec from o.0)) [
        | inl e ↦ rw (e, follow_remote) (follow_remote-IsKept moves pairs o a.1 k)
        | inr (c, e) ↦
            rw (e, follow_remote)
              (follow_remote-IsKept moves pairs _ a.1
                (follow-IsKept moves from EChangeType.remote_delete c o a.0 e k))
      ]

  follow_local-IsKept :
      (moves : List Move) (pairs : List (Text × Text)) (o : Open) (held : List Text)
      → AreMoves moves pairs
      → IsKept moves o
      → IsKept moves (follow_local pairs o held).0
  unfolding follow_local
  follow_local-IsKept moves [] o held a k = k
  follow_local-IsKept moves ((from, to) ∷ pairs) o held a k =
      elim (Option-cases (Dict.lookup text_dec from o.0)) [
        | inl e ↦ rw (e, follow_local) (follow_local-IsKept moves pairs o held a.1 k)
        | inr (c, e) ↦
            rw (e, follow_local)
              (follow_local-IsKept moves pairs _ _ a.1
                (follow-IsKept moves from EChangeType.remote_modify c o a.0 e k))
      ]

  pulls-IsPullSafe :
      (moves : List Move) (changes : List FileChange)
      → All (λ (c : FileChange). IsPull x c.path) changes
      → All (IsPullSafe moves) changes
  pulls-IsPullSafe moves [] h = tt
  pulls-IsPullSafe moves (c ∷ changes) h = (inl h.0, pulls-IsPullSafe moves changes h.1)

  abbrev pub IsSafe : DiffResult → Type 0
  IsSafe r =
      All (λ (c : FileChange). IsPush x c.path) r.local_changes
      × All (IsPullSafe r.moves) r.remote_changes
      × All (λ (c : Conflict). IsContested x c.path) r.conflicts
      × All (IsConverged x) r.converged

  pair_moves-IsSafe : (u : Unpaired) → IsSound x u → IsSafe (pair_moves u (files_of x.baseline))
  unfolding pair_moves
  pair_moves-IsSafe u s =
      let baseline = files_of x.baseline in
      let remote = pair_up (gone_remotely u baseline) (fresh_remotely u) in
      let local = pair_up (gone_locally u baseline) (fresh_locally u) in
      let moves = moves_on Side.remote remote ++ moves_on Side.local local in
      let start : IsKept moves (by_path u.conflicts [], u.remote_changes) = (
        by_path-IsOpen u.conflicts [] s.contested tt,
        pulls-IsPullSafe moves u.remote_changes s.pulls,
      ) in
      let followed =
        follow_remote-IsKept moves remote _
          (AreMoves-imp (moves_on Side.remote remote) moves
            (λ path h. IsMovedFrom-left path (moves_on Side.remote remote) _ h) remote
            (moves_on-AreMoves Side.remote remote))
          start in
      let kept =
        follow_local-IsKept moves local _ []
          (AreMoves-imp (moves_on Side.local local) moves
            (λ path h. IsMovedFrom-right path (moves_on Side.remote remote) _ h) local
            (moves_on-AreMoves Side.local local))
          followed in
      (
        All-filter (λ (c : FileChange). IsPush x c.path) _ u.local_changes s.pushes,
        kept.1,
        values-IsContested _ kept.0,
        s.agreed,
      )

  -- No path that could not be read is on a list of changes or conflicts, or converged. A local
  -- change is of a path that changed here alone. A remote change is of a path that changed there
  -- alone, or of one that changed differently on both sides and from which a move starts. A
  -- conflict is of a path that changed differently on both sides, and a converged path is one that
  -- changed on both to the same content.
  pub diff-IsSafe : IsSafe (diff x)
  unfolding diff
  diff-IsSafe = pair_moves-IsSafe (compare x (all_paths x)) (compare-IsSound x (all_paths x))
