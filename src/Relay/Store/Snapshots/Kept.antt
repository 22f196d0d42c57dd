-- ===== src/Relay/Store/Snapshots/Kept.antt =====
-- Every history of calls keeps what the snapshots of the store stand for.
use obsync.Base.{
  ℕ, ◌+◌, ◌≤◌, ◌≡◌, sym, ◌∙◌, ap, subst, inl, inr, min, ◌||◌, not, Bool, true, false, some, List,
  [], ◌∷◌, ◌++◌, arith, Text, Bytes, length, take, leb, ◌==◌, if◌then◌else◌, Bool-cases,
  Option-cases,
}
use obsync.Relay.Store
use obsync.Relay.Store.{
  Pointer, DocsRow, Table, Store, put, new_docs_row, moved_row, is_null, new_store, cache_key,
}
use obsync.Relay.Store.Log.{first_update, next_update, folded}
use obsync.Relay.Store.Spec
use obsync.Relay.Store.Spec.{Spec, updates, new_spec}
use obsync.Relay.Store.Refines.{Refines, Refines-IsWellFormed, held_none, held_some, held_head}
use obsync.Relay.Store.Appending.{spec_seed-none, spec_seed-some, seed-Refines}
use obsync.Relay.Store.Simulation.{moved_of-row, head_of-row}
use obsync.Relay.Store.Tracking.{Tracks, new-Tracks}
use obsync.Relay.Store.History.{Call, call, spec_call, run, spec_run, call-Tracks}
use obsync.Relay.Store.Snapshots.{
  IsSnapped, AreSnapped, IsHonestCall, IsHonest, IsSnapped-put_logs, IsSnapped-put_rows,
  mark_moved-AreSnapped, purge-AreSnapped, moved_to-AreSnapped, first_update-AreSnapped,
  IsFolded-snoc, IsFolded-at,
}

module _ (Stands : Bytes → List Bytes → Type 0) where
  next_update-AreSnapped :
      (c d : Text) (payload : Bytes) (n : ℕ) (s : Store) (a : Spec) (r : DocsRow) (us : List Bytes)
      → AreSnapped Stands s a
      → s.docs c d ≡ some r
      → a.logs c d ≡ some us
      → r.snap_seq ≤ length us
      → AreSnapped Stands
          (next_update c d payload n s)
          (record a { logs = put c d (some (us ++ payload ∷ [])) a.logs })
  next_update-AreSnapped c d payload n s a r us h e p k c' d' =
      IsSnapped-put_logs Stands c d (some (us ++ payload ∷ [])) s.docs a.logs c' d'
        (subst (λ o. IsSnapped Stands o (some (us ++ payload ∷ []))) (sym e)
          (IsFolded-snoc Stands r.snap r.snap_seq us payload k
            (IsFolded-at Stands c d s a r us h e p)))
        (h c' d')

  append-AreSnapped :
      (c d : Text) (payload : Bytes) (drawn : Text) (s : Store) (a : Spec)
      → Refines s a
      → AreSnapped Stands s a
      → AreSnapped Stands (Store.append c d payload drawn s).1 (Spec.append c d payload a).1
  unfolding Spec.append
  append-AreSnapped c d payload drawn s a h k =
      let w = Refines-IsWellFormed s a h in
      elim (Option-cases (s.docs c d)) [
        | inl e ↦
            rw (Store.Log.append-none c d payload drawn s e w, held_none c d s a h e)
              (first_update-AreSnapped Stands c d payload drawn s a k)
        | inr (r, e) ↦
            let (us, p, q) = held_some c d s a r h e in
            rw (Store.Log.append-some c d payload drawn s r e w, p)
              (next_update-AreSnapped c d payload (r.snap_seq + length (s.deltas c d)) s a r us k e
                p q.1)
      ]

  seed-AreSnapped :
      (c d : Text) (payload : Bytes) (drawn : Text) (s : Store) (a : Spec)
      → Refines s a
      → AreSnapped Stands s a
      → AreSnapped Stands (Store.seed c d payload drawn s).1 (Spec.seed c d payload a).1
  seed-AreSnapped c d payload drawn s a h k =
      let w = Refines-IsWellFormed s a h in
      elim (Option-cases (s.docs c d)) [
        | inl e ↦
            rw
              (
                Store.Log.seed-none c d payload drawn s e w,
                spec_seed-none c d payload a (held_none c d s a h e),
              )
              (first_update-AreSnapped Stands c d payload drawn s a k)
        | inr (r, e) ↦
            let (us, p, q) = held_some c d s a r h e in
            rw (Store.Log.seed-some c d payload drawn s r e, spec_seed-some c d payload a us p) k
      ]

  if-AreSnapped :
      (x y : Bool) (s t u : Store) (a b e : Spec)
      → AreSnapped Stands s a
      → AreSnapped Stands t b
      → AreSnapped Stands u e
      → AreSnapped Stands
          (if◌then◌else◌ {A = Bool × Store} x (false, s) (if y then (false, t) else (true, u))).1
          (if◌then◌else◌ {A = Bool × Spec} x (false, a) (if y then (false, b) else (true, e))).1
  if-AreSnapped true y s t u a b e h k l = h
  if-AreSnapped false true s t u a b e h k l = k
  if-AreSnapped false false s t u a b e h k l = l

  rotate-AreSnapped :
      (c d : Text) (p : Pointer) (upto : ℕ) (payload : Bytes) (drawn : Text) (s : Store) (a : Spec)
      → Refines s a
      → AreSnapped Stands s a
      → AreSnapped Stands
          (Store.rotate c d p upto payload drawn s).1
          (Spec.rotate c d p upto payload a).1
  unfolding Store.rotate Spec.rotate
  rotate-AreSnapped c d p upto payload drawn s a h k =
      let (answer, seeded) = seed-Refines c p.target payload drawn s a h in
      let kept = seed-AreSnapped c p.target payload drawn s a h k in
      let moved =
        mark_moved-AreSnapped Stands c d p (Store.seed c p.target payload drawn s).1
          (Spec.seed c p.target payload a).1 kept in
      rw (moved_of-row c d s a h, head_of-row c d s a h, answer)
        (if-AreSnapped
          (not (is_null (a.pointers c d)) || not (length (updates (a.logs c d)) == upto))
          (is_null (Spec.seed c p.target payload a).0) s _ _ a _ _ k kept moved)

  honest_taken :
      (payload : Bytes) (n covered : ℕ) (vs : List Bytes)
      → n ≡ covered
      → (length payload == 0 || covered == 0) ≡ false
      → (if length payload == 0 || n == 0 then Unit else Stands payload (take n vs))
      → Stands payload (take covered vs)
  honest_taken payload n covered vs e taken honest =
      subst (λ (x : Bool). if x then Unit else Stands payload (take covered vs)) taken
        (subst (λ m. if length payload == 0 || m == 0 then Unit else Stands payload (take m vs)) e
          honest)

  compact-AreSnapped :
      (c d : Text) (payload : Bytes) (upto : ℕ) (s : Store) (a : Spec)
      → Refines s a
      → IsHonestCall Stands (Call.compacts c d payload upto) a
      → AreSnapped Stands s a
      → AreSnapped Stands (Store.compact c d payload upto s) a
  compact-AreSnapped c d payload upto s a h honest k =
      let w = Refines-IsWellFormed s a h in
      elim (Option-cases (s.docs c d)) [
        | inl e ↦ rw (Store.Log.compact-none c d payload upto s e) k
        | inr (r, e) ↦
            let (us, p, q) = held_some c d s a r h e in
            let covered = min upto (r.snap_seq + length (s.deltas c d)) in
            let at : min upto (length us) ≡ covered =
              ap (min upto) (sym (held_head r (s.deltas c d) us q)) in
            rw (Store.Log.compact-some c d payload upto s r e w)
              (elim (Bool-cases (length payload == 0 || leb covered r.snap_seq)) [
                | inl kept ↦ rw kept k
                | inr taken ↦ rw taken (λ c' d'.
                    IsSnapped-put_rows Stands c d
                      (some (record r { snap = some payload; snap_seq = covered })) s.docs a.logs c'
                      d'
                      (honest_taken payload (min upto (length (updates (a.logs c d)))) covered
                        (updates (a.logs c d)) (ap (λ u. min upto (length (updates u))) p ∙ at)
                        (ground arith) honest)
                      (k c' d'))
              ])
      ]

  call-AreSnapped :
      (x : Call) (s : Store) (a : Spec)
      → Refines s a
      → IsHonestCall Stands x a
      → AreSnapped Stands s a
      → AreSnapped Stands (call x s).1 (spec_call x a).1
  call-AreSnapped (Call.moves c d) s a h honest k = moved_to-AreSnapped Stands c d s a k
  call-AreSnapped (Call.purges c) s a h honest k = purge-AreSnapped Stands c s a k
  call-AreSnapped (Call.rotates c d p upto payload drawn) s a h honest k =
      rotate-AreSnapped c d p upto payload drawn s a h k
  call-AreSnapped (Call.appends c d payload drawn) s a h honest k =
      append-AreSnapped c d payload drawn s a h k
  call-AreSnapped (Call.seeds c d payload drawn) s a h honest k =
      seed-AreSnapped c d payload drawn s a h k
  call-AreSnapped (Call.compacts c d payload upto) s a h honest k =
      compact-AreSnapped c d payload upto s a h honest k

  run-AreSnapped_from :
      (xs : List Call) (s : Store) (a : Spec)
      → Tracks s a
      → IsHonest Stands xs a
      → AreSnapped Stands s a
      → AreSnapped Stands (run xs s).1 (spec_run xs a).1
  unfolding run spec_run
  run-AreSnapped_from [] s a h honest k = k
  run-AreSnapped_from (x ∷ xs) s a h honest k =
      run-AreSnapped_from xs (call x s).1 (spec_call x a).1 (call-Tracks x s a h).1 honest.1
        (call-AreSnapped x s a h.refines honest.0 k)

  pub run-AreSnapped :
      (xs : List Call)
      → IsHonest Stands xs new_spec
      → AreSnapped Stands (run xs new_store).1 (spec_run xs new_spec).1
  run-AreSnapped xs honest = run-AreSnapped_from xs new_store new_spec new-Tracks honest (λ c d. tt)
