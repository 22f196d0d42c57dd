-- ===== src/Sync/Diff/Sound.antt =====
-- What puts a path on a list of the comparison, before moves are paired.
use obsync.Base.{
  ◌≡◌, refl, Bool, true, false, not, ◌&&◌, List, [], ◌∷◌, arith, Text, All, if◌then◌else◌,
}
use obsync.Sync.Types.{entry_at, FileChange, Conflict}
use obsync.Sync.Moves.{Unpaired}
use obsync.Sync.Diff.{
  DiffInput, files_of, same_content, is_unreadable, add_local, add_remote, add_conflict, visit,
  compare,
}

module _ (x : DiffInput) where
  -- Whether a side holds what the baseline holds, and whether both sides hold the same.
  abbrev pub is_kept_here : Text → Bool
  is_kept_here path =
      same_content (entry_at x.local.files path) (entry_at (files_of x.baseline) path)

  abbrev pub is_kept_there : Text → Bool
  is_kept_there path =
      same_content (entry_at (files_of x.remote) path) (entry_at (files_of x.baseline) path)

  abbrev pub is_agreed : Text → Bool
  is_agreed path = same_content (entry_at x.local.files path) (entry_at (files_of x.remote) path)

  -- Changed here, and only here.
  abbrev pub IsPush : Text → Type 0
  IsPush path =
      (is_unreadable x path ≡ false) × (is_kept_here path ≡ false) × (is_kept_there path ≡ true)

  -- Changed there, and only there.
  abbrev pub IsPull : Text → Type 0
  IsPull path =
      (is_unreadable x path ≡ false) × (is_kept_here path ≡ true) × (is_kept_there path ≡ false)

  -- Changed on both sides, and differently.
  abbrev pub IsContested : Text → Type 0
  IsContested path =
      (is_unreadable x path ≡ false)
      × (is_kept_here path ≡ false)
      × (is_kept_there path ≡ false)
      × (is_agreed path ≡ false)

  -- Changed on both sides to one content.
  abbrev pub IsConverged : Text → Type 0
  IsConverged path =
      (is_unreadable x path ≡ false)
      × (is_kept_here path ≡ false)
      × (is_kept_there path ≡ false)
      × (is_agreed path ≡ true)

  pub record IsSound (u : Unpaired) : Type 0 where
    pub pushes : All (λ (c : FileChange). IsPush c.path) u.local_changes
    pub pulls : All (λ (c : FileChange). IsPull c.path) u.remote_changes
    pub contested : All (λ (c : Conflict). IsContested c.path) u.conflicts
    pub agreed : All IsConverged u.converged

  if-IsSound :
      (b : Bool) (u v : Unpaired)
      → (b ≡ true → IsSound u)
      → (b ≡ false → IsSound v)
      → IsSound (if b then u else v)
  if-IsSound true u v f g = f refl
  if-IsSound false u v f g = g refl

  add_local-IsSound :
      (path : Text) (u : Unpaired) → IsPush path → IsSound u → IsSound (add_local x path u)
  unfolding add_local
  add_local-IsSound path u h s = record {
    pushes = (h, s.pushes);
    pulls = s.pulls;
    contested = s.contested;
    agreed = s.agreed;
  }

  add_remote-IsSound :
      (path : Text) (u : Unpaired) → IsPull path → IsSound u → IsSound (add_remote x path u)
  unfolding add_remote
  add_remote-IsSound path u h s = record {
    pushes = s.pushes;
    pulls = (h, s.pulls);
    contested = s.contested;
    agreed = s.agreed;
  }

  add_conflict-IsSound :
      (path : Text) (u : Unpaired) → IsContested path → IsSound u → IsSound (add_conflict x path u)
  unfolding add_conflict
  add_conflict-IsSound path u h s = record {
    pushes = s.pushes;
    pulls = s.pulls;
    contested = (h, s.contested);
    agreed = s.agreed;
  }

  add_converged-IsSound :
      (path : Text) (u : Unpaired)
      → IsConverged path
      → IsSound u
      → IsSound (record u { converged = path ∷ u.converged })
  add_converged-IsSound path u h s = record {
    pushes = s.pushes;
    pulls = s.pulls;
    contested = s.contested;
    agreed = (h, s.agreed);
  }

  visit-IsSound : (path : Text) (u : Unpaired) → IsSound u → IsSound (visit x path u)
  unfolding visit
  visit-IsSound path u s =
      let here = not (is_kept_here path) in
      let there = not (is_kept_there path) in
      if-IsSound (is_unreadable x path) _ _ (λ gone. s)
        (λ readable.
          if-IsSound (not here && not there) _ _ (λ still. s)
            (λ moved.
              if-IsSound (here && there) _ _
                (λ both.
                  if-IsSound (is_agreed path) _ _
                    (λ agree.
                      add_converged-IsSound path u (readable, ground arith, ground arith, agree) s)
                    (λ differ.
                      add_conflict-IsSound path u (readable, ground arith, ground arith, differ) s))
                (λ one.
                  if-IsSound here _ _
                    (λ ours. add_local-IsSound path u (readable, ground arith, ground arith) s)
                    (λ theirs.
                      add_remote-IsSound path u (readable, ground arith, ground arith) s))))

  pub compare-IsSound : (paths : List Text) → IsSound (compare x paths)
  unfolding compare
  compare-IsSound [] = record { pushes = tt; pulls = tt; contested = tt; agreed = tt }
  compare-IsSound (path ∷ paths) = visit-IsSound path (compare x paths) (compare-IsSound paths)
