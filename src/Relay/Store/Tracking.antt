-- ===== src/Relay/Store/Tracking.antt =====
-- The store against its specification, the cache included, operation by operation.
use obsync.Base.{
  ℕ, ◌≤◌, ◌≡◌, ◌≢◌, refl, sym, ◌⊎◌, inl, inr, Option, some, [], arith, Text, Bytes, text_dec,
  length, Option-cases,
}
use obsync.Base.Dict
use obsync.Relay.Store
use obsync.Relay.Store.{
  Pointer, Store, new_store, cache_key, pointer_of, put, moved_cache_max, is_null,
}
use obsync.Relay.Store.Cache.{IsCoherent, Agrees-some, remember-IsCoherent, remember-length}
use obsync.Relay.Store.Spec
use obsync.Relay.Store.Spec.{Spec, new_spec}
use obsync.Relay.Store.Refines.{Refines}
use obsync.Relay.Store.Appending.{append-Refines, seed-Refines}
use obsync.Relay.Store.Folding.{compact-Refines}
use obsync.Relay.Store.Simulation.{purge-Refines, mark_moved-Refines, moved_of-row, head_of-row}

-- The refinement, the cache included.
pub record Tracks (s : Store) (a : Spec) : Type 0 where
  pub refines : Refines s a
  pub coherent : IsCoherent s.moved a.pointers
  pub bounded : length s.moved ≤ moved_cache_max

pub new-Tracks : Tracks new_store new_spec
unfolding Dict.lookup
new-Tracks = record {
  refines = record { held = λ c d. refl; pointed = λ c d. refl };
  coherent = λ c d. tt;
  bounded = omega arith;
}

-- What the calls do to the cache.
insert-moved :
    (c d : Text) (payload : Bytes) (known : Option Store.DocRow) (drawn : Text) (s : Store)
    → (Store.insert c d payload known drawn s).1.moved ≡ s.moved
unfolding Store.insert
insert-moved c d payload known drawn s = refl

append-moved :
    (c d : Text) (payload drawn : Text) (s : Store)
    → (Store.append c d payload drawn s).1.moved ≡ s.moved
unfolding Store.append
append-moved c d payload drawn s = refl

seed-moved :
    (c d : Text) (payload drawn : Text) (s : Store)
    → (Store.seed c d payload drawn s).1.moved ≡ s.moved
unfolding Store.seed
seed-moved c d payload drawn s = ground arith

compact-moved :
    (c d : Text) (payload : Bytes) (upto : ℕ) (s : Store)
    → (Store.compact c d payload upto s).moved ≡ s.moved
unfolding Store.compact
compact-moved c d payload upto s = ground arith

append-pointers :
    (c d : Text) (payload : Bytes) (a : Spec) → (Spec.append c d payload a).1.pointers ≡ a.pointers
unfolding Spec.append
append-pointers c d payload a = refl

seed-pointers :
    (c d : Text) (payload : Bytes) (a : Spec) → (Spec.seed c d payload a).1.pointers ≡ a.pointers
unfolding Spec.seed
seed-pointers c d payload a = ground arith

pub moved_to-Tracks :
    (c d : Text) (s : Store) (a : Spec)
    → Tracks s a
    → ((Store.moved_to c d s).0 ≡ a.pointers c d) × Tracks (Store.moved_to c d s).1 a
unfolding Store.moved_to Store.remember
moved_to-Tracks c d s a h = elim (Option-cases (Dict.lookup text_dec (cache_key c d) s.moved)) [
  | inr (known, e) ↦
      rw (e, Store.moved_to) (Agrees-some _ (a.pointers c d) known (h.coherent c d) e, h)
  | inl e ↦ rw (e, Store.moved_to) (h.refines.pointed c d, remembered)
]
  where
    q : Option Pointer
    q = pointer_of (s.docs c d)

    remembered : Tracks (Store.remember (cache_key c d) q s) a
    remembered = record {
      refines = record { held = h.refines.held; pointed = h.refines.pointed };
      coherent =
          remember-IsCoherent c d q s a.pointers a.pointers h.coherent (sym (h.refines.pointed c d))
            (λ c' d' n. refl);
      bounded = remember-length (cache_key c d) q s h.bounded;
    }

put_kept :
    (c d : Text) (v : Option Pointer) (t : Text → Text → Option Pointer) (c' d' : Text)
    → (c ≢ c') ⊎ (d ≢ d')
    → put c d v t c' d' ≡ t c' d'
put_kept c d v t c' d' n = ground arith

put_self :
    (c d : Text) (v : Option Pointer) (t : Text → Text → Option Pointer) → put c d v t c d ≡ v
put_self c d v t = ground arith

pub mark_moved-Tracks :
    (c d : Text) (p : Pointer) (s : Store) (a : Spec)
    → Tracks s a
    → Tracks (Store.mark_moved c d p s) (Spec.mark_moved c d p a)
unfolding Store.mark_moved Spec.mark_moved
mark_moved-Tracks c d p s a h = record {
  refines = mark_moved-Refines c d p s a h.refines;
  coherent =
      remember-IsCoherent c d (some p) rows a.pointers (put c d (some p) a.pointers) h.coherent
        (put_self c d (some p) a.pointers) (put_kept c d (some p) a.pointers);
  bounded = remember-length (cache_key c d) (some p) rows h.bounded;
}
  where
    rows : Store
    rows = record s {
      docs = put c d (some (Store.moved_row (s.docs c d) p)) s.docs;
      deltas = put c d [] s.deltas;
    }

pub append-Tracks :
    (c d : Text) (payload drawn : Text) (s : Store) (a : Spec)
    → Tracks s a
    → ((Store.append c d payload drawn s).0 ≡ (Spec.append c d payload a).0)
      × Tracks (Store.append c d payload drawn s).1 (Spec.append c d payload a).1
append-Tracks c d payload drawn s a h =
    let (answer, kept) = append-Refines c d payload drawn s a h.refines in
    (
      answer,
      record {
        refines = kept;
        coherent = rw (append-moved c d payload drawn s, append-pointers c d payload a) h.coherent;
        bounded = rw (append-moved c d payload drawn s) h.bounded;
      },
    )

pub seed-Tracks :
    (c d : Text) (payload drawn : Text) (s : Store) (a : Spec)
    → Tracks s a
    → ((Store.seed c d payload drawn s).0 ≡ (Spec.seed c d payload a).0)
      × Tracks (Store.seed c d payload drawn s).1 (Spec.seed c d payload a).1
seed-Tracks c d payload drawn s a h =
    let (answer, kept) = seed-Refines c d payload drawn s a h.refines in
    (
      answer,
      record {
        refines = kept;
        coherent = rw (seed-moved c d payload drawn s, seed-pointers c d payload a) h.coherent;
        bounded = rw (seed-moved c d payload drawn s) h.bounded;
      },
    )

pub compact-Tracks :
    (c d : Text) (payload : Bytes) (upto : ℕ) (s : Store) (a : Spec)
    → Tracks s a
    → Tracks (Store.compact c d payload upto s) a
compact-Tracks c d payload upto s a h = record {
  refines = compact-Refines c d payload upto s a h.refines;
  coherent = rw (compact-moved c d payload upto s) h.coherent;
  bounded = rw (compact-moved c d payload upto s) h.bounded;
}

pub purge-Tracks :
    (c : Text) (s : Store) (a : Spec) → Tracks s a → Tracks (Store.purge c s) (Spec.purge c a)
unfolding Store.purge Dict.lookup
purge-Tracks c s a h = record {
  refines = purge-Refines c s a h.refines;
  coherent = λ c' d'. tt;
  bounded = omega arith;
}

pub rotate-Tracks :
    (c d : Text) (p : Pointer) (upto : ℕ) (payload : Bytes) (drawn : Text) (s : Store) (a : Spec)
    → Tracks s a
    → ((Store.rotate c d p upto payload drawn s).0 ≡ (Spec.rotate c d p upto payload a).0)
      × Tracks (Store.rotate c d p upto payload drawn s).1 (Spec.rotate c d p upto payload a).1
unfolding Store.rotate Spec.rotate
rotate-Tracks c d p upto payload drawn s a h =
    let (answer, seeded) = seed-Tracks c p.target payload drawn s a h in
    let moved =
      mark_moved-Tracks c d p (Store.seed c p.target payload drawn s).1
        (Spec.seed c p.target payload a).1 seeded in
    rw (moved_of-row c d s a h.refines, head_of-row c d s a h.refines, answer)
      (ground (arith, seeded, moved))
