-- ===== src/Relay/Store/Reader.antt =====
-- What a reader that holds the first `since` updates of a document is given.
use obsync.Base.{
  ℕ, ◌+◌, ◌-◌, ◌≤◌, ◌<◌, ◌≡◌, refl, sym, ap, ◌∙◌, ◌⊎◌, inl, inr, max, Option, none, some, List, map,
  arith, Text, Bytes, length, take, drop, ltb, if◌then◌else◌, Bool-cases, Option-cases,
}
use obsync.Relay.Store.{
  DocState, DocsRow, Delta, Store, new_store, state, after, snapshot, or_null_text,
}
use obsync.Relay.Store.Log.{row-none, row-some, after-plus}
use obsync.Relay.Store.Spec.{Spec, new_spec, updates}
use obsync.Relay.Store.Refines.{
  Holds, Refines, Refines-IsWellFormed, held_none, held_some, held_head, IsCovered,
}
use obsync.Relay.Store.History.{Call, run, spec_run, run-Tracks}
use obsync.Relay.Store.Snapshots.{IsFolded, AreSnapped, IsFolded-at, IsHonest}
use obsync.Relay.Store.Snapshots.Kept.{run-AreSnapped}
use obsync.Relay.Store.Folding.{drop-drop, map-drop, drop_nil}

-- The state brings a reader with the first `since` updates to all of them: by the updates that it
-- lacks, or by a snapshot that stands for the updates up to a place past its own, and the updates
-- after that.
abbrev pub CatchesUp : (Bytes → List Bytes → Type 0) → ℕ → List Bytes → DocState → Type 0
CatchesUp Stands since us st =
    (st.head ≡ length us)
    × (((st.snapshot ≡ none) × (st.deltas ≡ drop since us))
        ⊎ ((covered : ℕ) × (b : Bytes) × (st.snapshot ≡ some b)
            × Stands b (take covered us)
            × (since < covered)
            × (covered ≤ length us)
            × (st.deltas ≡ drop covered us)))

tail_of :
    (r : DocsRow) (xs : List Delta) (us : List Bytes) (m : ℕ)
    → Holds (some r) xs (some us)
    → r.snap_seq ≤ m
    → map (λ (x : Delta). x.blob) (after m xs) ≡ drop m us
tail_of r xs us m h k =
    let sum : r.snap_seq + (m - r.snap_seq) ≡ m = omega arith in
    rw (after-plus r.snap_seq m xs h.0 k) (
      map-drop (m - r.snap_seq) xs
      ∙ (ap (drop (m - r.snap_seq)) h.2
          ∙ (drop-drop r.snap_seq (m - r.snap_seq) us ∙ ap (λ n. drop n us) sum)))

tail_at :
    (r : DocsRow) (xs : List Delta) (us : List Bytes) (since m : ℕ)
    → Holds (some r) xs (some us)
    → max since r.snap_seq ≡ m
    → map (λ (x : Delta). x.blob) (after (max since r.snap_seq) xs) ≡ drop m us
tail_at r xs us since m h e = rw e (tail_of r xs us m h (omega arith))

state-row :
    (Stands : Bytes → List Bytes → Type 0) (r : DocsRow) (xs : List Delta) (us : List Bytes)
    (since : ℕ) (snap : Option Bytes) (log : Text)
    → IsCovered snap r.snap_seq
    → IsFolded Stands snap r.snap_seq us
    → Holds (some r) xs (some us)
    → CatchesUp Stands since us (record {
      head = r.snap_seq + length xs;
      snapshot = if ltb since r.snap_seq then snap else none;
      deltas = map (λ x. x.blob) (after (max since r.snap_seq) xs);
      log = log;
    })
state-row Stands r xs us since none log v f h =
    (held_head r xs us h, inl (ground arith, tail_at r xs us since since h (omega arith)))
state-row Stands r xs us since (some b) log v f h = (
  held_head r xs us h,
  elim (Bool-cases (ltb since r.snap_seq)) [
    | inl behind ↦ inr (
      r.snap_seq,
      b,
      rw behind,
      f,
      ground arith,
      h.1,
      tail_at r xs us since r.snap_seq h (ground arith),
    )
    | inr current ↦ inl (rw current, tail_at r xs us since since h (ground arith))
  ],
)

snapshot-some :
    (c d : Text) (s : Store) (r : DocsRow) → s.docs c d ≡ some r → snapshot c d s ≡ r.snap
snapshot-some c d s r e = ground arith

state-CatchesUp :
    (Stands : Bytes → List Bytes → Type 0) (c d : Text) (since : ℕ) (s : Store) (a : Spec)
    → Refines s a
    → AreSnapped Stands s a
    → CatchesUp Stands since (updates (a.logs c d)) (state c d since s)
unfolding state
state-CatchesUp Stands c d since s a h k = elim (Option-cases (s.docs c d)) [
  | inl e ↦
      rw (row-none c d s e, state, held_none c d s a h e) (refl, inl (refl, sym (drop_nil since)))
  | inr (r, e) ↦
      let (us, p, q) = held_some c d s a r h e in
      rw (row-some c d s r e (Refines-IsWellFormed s a h), state, p, snapshot-some c d s r e)
        (state-row Stands r (s.deltas c d) us since r.snap (or_null_text r.log) q.3
          (IsFolded-at Stands c d s a r us k e p) q)
]

-- When every snapshot that was given stood for the updates up to the place that it named: after any
-- history of calls, whatever of a document was folded into its snapshot, the state that the store
-- answers brings a reader at any `since` to the document's whole log. Its head is the length of the
-- log, and it has either the updates past `since`, or a snapshot that stands for the updates up to
-- a place past `since`, and the updates past that place.
pub run-CatchesUp :
    (Stands : Bytes → List Bytes → Type 0) (xs : List Call) (c d : Text) (since : ℕ)
    → IsHonest Stands xs new_spec
    → CatchesUp Stands since
        (updates ((spec_run xs new_spec).1.logs c d))
        (state c d since (run xs new_store).1)
run-CatchesUp Stands xs c d since honest =
    state-CatchesUp Stands c d since (run xs new_store).1 (spec_run xs new_spec).1
      (run-Tracks xs).1.refines (run-AreSnapped Stands xs honest)
