-- ===== src/Relay/Store/Appending.antt =====
-- `append` and `seed` answer as the specification and keep the refinement.
use mathlib.Core.List.{map-append}
use obsync.Base.{
  ℕ, zero, suc, ◌+◌, ◌≤◌, ◌≡◌, refl, sym, ap, subst, ◌∙◌, inl, inr, Option, none, some, List, [],
  ◌∷◌, ◌++◌, arith, Text, Bytes, length, length-append, drop, Option-cases,
}
use obsync.Relay.Store
use obsync.Relay.Store.{
  Pointer, DocState, DocsRow, Delta, DocRow, Table, Store, put, pointer_of, moved_row, new_docs_row,
  last_seq, is_null, moved_of, head_of,
}
use obsync.Relay.Store.Contiguous.{insert_delta-IsContiguous}
use obsync.Relay.Store.Log.{
  IsLog, IsWellFormed, append-none, append-some, seed-none, seed-some, compact-none, compact-some,
  first_update, next_update, folded, row-none, row-some,
}
use obsync.Relay.Store.Spec
use obsync.Relay.Store.Spec.{Spec, updates}
use obsync.Relay.Store.Refines.{
  Holds, Refines, Refines-IsWellFormed, held_none, held_some, held_head,
}

pub held_put :
    (c d : Text) (v : Option DocsRow) (w : List Delta) (u : Option (List Bytes))
    (docs : Table (Option DocsRow)) (deltas : Table (List Delta))
    (logs : Table (Option (List Bytes))) (c' d' : Text)
    → Holds v w u
    → Holds (docs c' d') (deltas c' d') (logs c' d')
    → Holds (put c d v docs c' d') (put c d w deltas c' d') (put c d u logs c' d')
held_put c d v w u docs deltas logs c' d' h k = ground arith

held_put_deltas :
    (c d : Text) (w : List Delta) (u : Option (List Bytes)) (docs : Table (Option DocsRow))
    (deltas : Table (List Delta)) (logs : Table (Option (List Bytes))) (c' d' : Text)
    → Holds (docs c d) w u
    → Holds (docs c' d') (deltas c' d') (logs c' d')
    → Holds (docs c' d') (put c d w deltas c' d') (put c d u logs c' d')
held_put_deltas c d w u docs deltas logs c' d' h k = ground arith

pub held_put_rows :
    (c d : Text) (v : Option DocsRow) (w : List Delta) (docs : Table (Option DocsRow))
    (deltas : Table (List Delta)) (logs : Table (Option (List Bytes))) (c' d' : Text)
    → Holds v w (logs c d)
    → Holds (docs c' d') (deltas c' d') (logs c' d')
    → Holds (put c d v docs c' d') (put c d w deltas c' d') (logs c' d')
held_put_rows c d v w docs deltas logs c' d' h k = ground arith

pub pointed_put :
    (c d : Text) (v : Option DocsRow) (docs : Table (Option DocsRow))
    (pointers : Table (Option Pointer)) (c' d' : Text)
    → pointer_of v ≡ pointers c d
    → pointer_of (docs c' d') ≡ pointers c' d'
    → pointer_of (put c d v docs c' d') ≡ pointers c' d'
pointed_put c d v docs pointers c' d' h k = ground arith

drop_snoc :
    (n : ℕ) (us : List Bytes) (b : Bytes)
    → n ≤ length us
    → drop n (us ++ b ∷ []) ≡ drop n us ++ b ∷ []
drop_snoc zero us b h = refl
drop_snoc (suc n) [] b h = absurd (omega arith)
drop_snoc (suc n) (u ∷ us) b h = drop_snoc n us b (omega arith)

pointed_none :
    (c d : Text) (s : Store) (a : Spec) → Refines s a → s.docs c d ≡ none → a.pointers c d ≡ none
pointed_none c d s a h e = sym (h.pointed c d) ∙ ap pointer_of e

first_update-Refines :
    (c d : Text) (payload : Bytes) (drawn : Text) (s : Store) (a : Spec)
    → Refines s a
    → s.docs c d ≡ none
    → Refines
        (first_update c d payload drawn s)
        (record a { logs = put c d (some (payload ∷ [])) a.logs })
first_update-Refines c d payload drawn s a h e = record {
  held = λ c' d'.
      held_put c d (some (new_docs_row drawn)) (record { seq = 1; blob = payload } ∷ [])
        (some (payload ∷ [])) s.docs s.deltas a.logs c' d' ((refl, tt), omega arith, refl, refl)
        (h.held c' d');
  pointed = λ c' d'.
      pointed_put c d (some (new_docs_row drawn)) s.docs a.pointers c' d'
        (sym (pointed_none c d s a h e)) (h.pointed c' d');
}

next_update-Refines :
    (c d : Text) (payload : Bytes) (s : Store) (a : Spec) (r : DocsRow) (us : List Bytes)
    → Refines s a
    → s.docs c d ≡ some r
    → Holds (some r) (s.deltas c d) (some us)
    → Refines
        (next_update c d payload (r.snap_seq + length (s.deltas c d)) s)
        (record a { logs = put c d (some (us ++ payload ∷ [])) a.logs })
next_update-Refines c d payload s a r us h e k = record {
  held = λ c' d'.
      held_put_deltas c d (s.deltas c d ++ δ ∷ []) (some (us ++ payload ∷ [])) s.docs s.deltas
        a.logs c' d'
        (subst (λ o. Holds o (s.deltas c d ++ δ ∷ []) (some (us ++ payload ∷ []))) (sym e) more)
        (h.held c' d');
  pointed = h.pointed;
}
  where
    δ : Delta
    δ = record { seq = suc (r.snap_seq + length (s.deltas c d)); blob = payload }

    more : Holds (some r) (s.deltas c d ++ δ ∷ []) (some (us ++ payload ∷ []))
    more = (
      (insert_delta-IsContiguous r.snap_seq (s.deltas c d) δ k.0 refl).1,
      omega (arith, k.1, length-append us (payload ∷ [])),
      rw (drop_snoc r.snap_seq us payload k.1, ← k.2)
          (map-append (λ (x : Delta). x.blob) (s.deltas c d) (δ ∷ [])),
      k.3,
    )

pub append-Refines :
    (c d : Text) (payload : Bytes) (drawn : Text) (s : Store) (a : Spec)
    → Refines s a
    → ((Store.append c d payload drawn s).0 ≡ (Spec.append c d payload a).0)
      × Refines (Store.append c d payload drawn s).1 (Spec.append c d payload a).1
unfolding Spec.append
append-Refines c d payload drawn s a h =
    let w = Refines-IsWellFormed s a h in
    elim (Option-cases (s.docs c d)) [
      | inl e ↦
          rw (Store.Log.append-none c d payload drawn s e w, held_none c d s a h e)
            (refl, first_update-Refines c d payload drawn s a h e)
      | inr (r, e) ↦
          let (us, p, k) = held_some c d s a r h e in
          rw (Store.Log.append-some c d payload drawn s r e w, p)
            (
              omega (arith, held_head r (s.deltas c d) us k, length-append us (payload ∷ [])),
              next_update-Refines c d payload s a r us h e k,
            )
    ]

pub spec_seed-none :
    (c d : Text) (payload : Bytes) (a : Spec)
    → a.logs c d ≡ none
    → Spec.seed c d payload a ≡ (some 1, record a { logs = put c d (some (payload ∷ [])) a.logs })
unfolding Spec.seed
spec_seed-none c d payload a e = rw (e, Spec.seed)

pub spec_seed-some :
    (c d : Text) (payload : Bytes) (a : Spec) (us : List Bytes)
    → a.logs c d ≡ some us
    → Spec.seed c d payload a ≡ (none, a)
unfolding Spec.seed
spec_seed-some c d payload a us e = rw (e, Spec.seed)

pub seed-Refines :
    (c d : Text) (payload : Bytes) (drawn : Text) (s : Store) (a : Spec)
    → Refines s a
    → ((Store.seed c d payload drawn s).0 ≡ (Spec.seed c d payload a).0)
      × Refines (Store.seed c d payload drawn s).1 (Spec.seed c d payload a).1
seed-Refines c d payload drawn s a h =
    let w = Refines-IsWellFormed s a h in
    elim (Option-cases (s.docs c d)) [
      | inl e ↦
          rw
            (
              Store.Log.seed-none c d payload drawn s e w,
              spec_seed-none c d payload a (held_none c d s a h e),
            )
            (refl, first_update-Refines c d payload drawn s a h e)
      | inr (r, e) ↦
          let (us, p, k) = held_some c d s a r h e in
          rw (Store.Log.seed-some c d payload drawn s r e, spec_seed-some c d payload a us p)
            (refl, h)
    ]
