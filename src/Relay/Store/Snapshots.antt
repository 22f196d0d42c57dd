-- ===== src/Relay/Store/Snapshots.antt =====
-- What the snapshots of the store stand for.
pub mod Kept
use obsync.Base.{
  ℕ, zero, suc, ◌+◌, ◌≤◌, ◌≡◌, refl, sym, ◌∙◌, ap, subst, inl, inr, min, ◌||◌, not, Bool, true,
  false, Option, none, some, List, [], ◌∷◌, ◌++◌, arith, Text, Bytes, text_dec, length, take, leb,
  ◌==◌, if◌then◌else◌, Bool-cases, Option-cases,
}
use obsync.Base.Dict
use obsync.Relay.Store
use obsync.Relay.Store.{
  Pointer, DocsRow, Table, Store, put, new_docs_row, moved_row, is_null, new_store, cache_key,
}
use obsync.Relay.Store.Log.{first_update, next_update, folded}
use obsync.Relay.Store.Spec
use obsync.Relay.Store.Spec.{Spec, updates, new_spec}
use obsync.Relay.Store.Refines.{Refines, Refines-IsWellFormed, held_none, held_some, held_head}
use obsync.Relay.Store.Appending.{spec_seed-none, spec_seed-some, seed-Refines}
use obsync.Relay.Store.Simulation.{moved_of-row, head_of-row}
use obsync.Relay.Store.Tracking.{Tracks, new-Tracks}
use obsync.Relay.Store.History.{Call, call, spec_call, run, spec_run, call-Tracks}

-- A client builds a snapshot from a document's updates and the store never reads it: that it stands
-- for a list of updates is a relation of the clients.
module _ (Stands : Bytes → List Bytes → Type 0) where
  -- A snapshot stands for the first `n` updates.
  abbrev pub IsFolded : Option Bytes → ℕ → List Bytes → Type 0
  IsFolded none n us = Unit
  IsFolded (some b) n us = Stands b (take n us)

  abbrev pub IsSnapped : Option DocsRow → Option (List Bytes) → Type 0
  IsSnapped none u = Unit
  IsSnapped (some r) u = IsFolded r.snap r.snap_seq (updates u)

  -- Every snapshot of the store stands for the updates that it replaced.
  abbrev pub AreSnapped : Store → Spec → Type 0
  AreSnapped s a = (c d : Text) → IsSnapped (s.docs c d) (a.logs c d)

  -- A client gives a snapshot that stands for the updates up to the place that it names, or up to
  -- the log's end where it names a later one.
  abbrev pub IsHonestCall : Call → Spec → Type 0
  IsHonestCall (Call.compacts c d payload upto) a =
      let us = updates (a.logs c d) in
      let covered = min upto (length us) in
      if length payload == 0 || covered == 0 then Unit else Stands payload (take covered us)
  IsHonestCall _ a = Unit

  -- Each snapshot of a history was honest when it was given.
  abbrev pub IsHonest : List Call → Spec → Type 0
  IsHonest [] a = Unit
  IsHonest (x ∷ xs) a = IsHonestCall x a × IsHonest xs (spec_call x a).1

  IsSnapped-put :
      (c d : Text) (v : Option DocsRow) (u : Option (List Bytes)) (docs : Table (Option DocsRow))
      (logs : Table (Option (List Bytes))) (c' d' : Text)
      → IsSnapped v u
      → IsSnapped (docs c' d') (logs c' d')
      → IsSnapped (put c d v docs c' d') (put c d u logs c' d')
  IsSnapped-put c d v u docs logs c' d' h k = ground arith

  pub IsSnapped-put_logs :
      (c d : Text) (u : Option (List Bytes)) (docs : Table (Option DocsRow))
      (logs : Table (Option (List Bytes))) (c' d' : Text)
      → IsSnapped (docs c d) u
      → IsSnapped (docs c' d') (logs c' d')
      → IsSnapped (docs c' d') (put c d u logs c' d')
  IsSnapped-put_logs c d u docs logs c' d' h k = ground arith

  pub IsSnapped-put_rows :
      (c d : Text) (v : Option DocsRow) (docs : Table (Option DocsRow))
      (logs : Table (Option (List Bytes))) (c' d' : Text)
      → IsSnapped v (logs c d)
      → IsSnapped (docs c' d') (logs c' d')
      → IsSnapped (put c d v docs c' d') (logs c' d')
  IsSnapped-put_rows c d v docs logs c' d' h k = ground arith

  moved_row-IsSnapped :
      (o : Option DocsRow) (p : Pointer) (u : Option (List Bytes))
      → IsSnapped (some (moved_row o p)) u
  moved_row-IsSnapped none p u = tt
  moved_row-IsSnapped (some r) p u = tt

  pub mark_moved-AreSnapped :
      (c d : Text) (p : Pointer) (s : Store) (a : Spec)
      → AreSnapped s a
      → AreSnapped (Store.mark_moved c d p s) (Spec.mark_moved c d p a)
  unfolding Store.mark_moved Store.remember Spec.mark_moved
  mark_moved-AreSnapped c d p s a h c' d' =
      IsSnapped-put c d (some (moved_row (s.docs c d) p)) (some []) s.docs a.logs c' d'
        (moved_row-IsSnapped (s.docs c d) p (some [])) (h c' d')

  pub purge-AreSnapped :
      (c : Text) (s : Store) (a : Spec)
      → AreSnapped s a
      → AreSnapped (Store.purge c s) (Spec.purge c a)
  unfolding Store.purge Spec.purge
  purge-AreSnapped c s a h c' d' = ground (arith, h c' d')

  moved_to-docs : (c d : Text) (s : Store) → (Store.moved_to c d s).1.docs ≡ s.docs
  unfolding Store.moved_to Store.remember
  moved_to-docs c d s = elim (Option-cases (Dict.lookup text_dec (cache_key c d) s.moved)) [
    | inl e ↦ rw (e, Store.moved_to) refl
    | inr (known, e) ↦ rw (e, Store.moved_to) refl
  ]

  pub moved_to-AreSnapped :
      (c d : Text) (s : Store) (a : Spec) → AreSnapped s a → AreSnapped (Store.moved_to c d s).1 a
  moved_to-AreSnapped c d s a h c' d' =
      subst (λ (t : Table (Option DocsRow)). IsSnapped (t c' d') (a.logs c' d'))
        (sym (moved_to-docs c d s)) (h c' d')

  pub first_update-AreSnapped :
      (c d : Text) (payload : Bytes) (drawn : Text) (s : Store) (a : Spec)
      → AreSnapped s a
      → AreSnapped
          (first_update c d payload drawn s)
          (record a { logs = put c d (some (payload ∷ [])) a.logs })
  first_update-AreSnapped c d payload drawn s a h c' d' =
      IsSnapped-put c d (some (new_docs_row drawn)) (some (payload ∷ [])) s.docs a.logs c' d' tt
        (h c' d')

  take_snoc :
      (n : ℕ) (us : List Bytes) (b : Bytes) → n ≤ length us → take n (us ++ b ∷ []) ≡ take n us
  take_snoc zero us b h = refl
  take_snoc (suc n) [] b h = absurd (omega arith)
  take_snoc (suc n) (u ∷ us) b h = ap (◌∷◌ u) (take_snoc n us b (omega arith))

  pub IsFolded-snoc :
      (snap : Option Bytes) (n : ℕ) (us : List Bytes) (b : Bytes)
      → n ≤ length us
      → IsFolded snap n us
      → IsFolded snap n (us ++ b ∷ [])
  IsFolded-snoc none n us b h k = tt
  IsFolded-snoc (some snap) n us b h k = rw (take_snoc n us b h) k

  pub IsFolded-at :
      (c d : Text) (s : Store) (a : Spec) (r : DocsRow) (us : List Bytes)
      → AreSnapped s a
      → s.docs c d ≡ some r
      → a.logs c d ≡ some us
      → IsFolded r.snap r.snap_seq us
  IsFolded-at c d s a r us h e p =
      subst (λ u. IsSnapped (some r) u) p (subst (λ o. IsSnapped o (a.logs c d)) e (h c d))
