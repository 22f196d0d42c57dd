-- ===== src/Relay/Store/Simulation.antt =====
-- Every operation of the store answers as its specification and keeps the refinement.
use obsync.Base.{
  ℕ, ◌≡◌, refl, inl, inr, Option, none, some, [], arith, Text, Bytes, length, Option-cases,
}
use obsync.Relay.Store
use obsync.Relay.Store.{
  Pointer, DocState, DocsRow, Delta, DocRow, Table, Store, put, pointer_of, moved_row, new_docs_row,
  last_seq, is_null, moved_of, head_of,
}
use obsync.Relay.Store.Log.{row-none, row-some}
use obsync.Relay.Store.Spec
use obsync.Relay.Store.Spec.{Spec, updates}
use obsync.Relay.Store.Refines.{
  Holds, Refines, Refines-IsWellFormed, held_none, held_some, held_head,
}
use obsync.Relay.Store.Appending.{held_put, seed-Refines}

pub purge-Refines :
    (c : Text) (s : Store) (a : Spec) → Refines s a → Refines (Store.purge c s) (Spec.purge c a)
unfolding Store.purge Spec.purge
purge-Refines c s a h = record {
  held = λ c' d'. ground (arith, h.held c' d');
  pointed = λ c' d'. ground (arith, h.pointed c' d');
}

moved_row-Holds : (o : Option DocsRow) (p : Pointer) → Holds (some (moved_row o p)) [] (some [])
moved_row-Holds none p = (tt, omega arith, refl, refl)
moved_row-Holds (some r) p = (tt, omega arith, refl, refl)

pointer_of-moved_row :
    (o : Option DocsRow) (p : Pointer) → pointer_of (some (moved_row o p)) ≡ some p
pointer_of-moved_row none p = refl
pointer_of-moved_row (some r) p = refl

pointed_put_both :
    (c d : Text) (v : Option DocsRow) (q : Option Pointer) (docs : Table (Option DocsRow))
    (pointers : Table (Option Pointer)) (c' d' : Text)
    → pointer_of v ≡ q
    → pointer_of (docs c' d') ≡ pointers c' d'
    → pointer_of (put c d v docs c' d') ≡ put c d q pointers c' d'
pointed_put_both c d v q docs pointers c' d' h k = ground arith

pub mark_moved-Refines :
    (c d : Text) (p : Pointer) (s : Store) (a : Spec)
    → Refines s a
    → Refines (Store.mark_moved c d p s) (Spec.mark_moved c d p a)
unfolding Store.mark_moved Store.remember Spec.mark_moved
mark_moved-Refines c d p s a h = record {
  held = λ c' d'.
      held_put c d (some (moved_row (s.docs c d) p)) [] (some []) s.docs s.deltas a.logs c' d'
        (moved_row-Holds (s.docs c d) p) (h.held c' d');
  pointed = λ c' d'.
      pointed_put_both c d (some (moved_row (s.docs c d) p)) (some p) s.docs a.pointers c' d'
        (pointer_of-moved_row (s.docs c d) p) (h.pointed c' d');
}

-- What `rotate` asks of the row, asked of the specification.
pub moved_of-row :
    (c d : Text) (s : Store) (a : Spec)
    → Refines s a
    → is_null (moved_of (Store.row c d s)) ≡ is_null (a.pointers c d)
unfolding Store.row
moved_of-row c d s a h = ground (arith, h.pointed c d)

pub head_of-row :
    (c d : Text) (s : Store) (a : Spec)
    → Refines s a
    → head_of (Store.row c d s) ≡ length (updates (a.logs c d))
head_of-row c d s a h = elim (Option-cases (s.docs c d)) [
  | inl e ↦ rw (row-none c d s e, held_none c d s a h e)
  | inr (r, e) ↦
      let (us, p, k) = held_some c d s a r h e in
      rw (row-some c d s r e (Refines-IsWellFormed s a h), p) (held_head r (s.deltas c d) us k)
]

pub rotate-Refines :
    (c d : Text) (p : Pointer) (upto : ℕ) (payload : Bytes) (drawn : Text) (s : Store) (a : Spec)
    → Refines s a
    → ((Store.rotate c d p upto payload drawn s).0 ≡ (Spec.rotate c d p upto payload a).0)
      × Refines (Store.rotate c d p upto payload drawn s).1 (Spec.rotate c d p upto payload a).1
unfolding Store.rotate Spec.rotate
rotate-Refines c d p upto payload drawn s a h =
    let (answer, seeded) = seed-Refines c p.target payload drawn s a h in
    let moved =
      mark_moved-Refines c d p (Store.seed c p.target payload drawn s).1
        (Spec.seed c p.target payload a).1 seeded in
    rw (moved_of-row c d s a h, head_of-row c d s a h, answer) (ground (arith, seeded, moved))
