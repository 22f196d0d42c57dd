-- ===== src/Relay/Store/Folding.antt =====
-- `compact` keeps the refinement: what it deletes is under the snapshot.
use Prim.Native.Nat.add
use obsync.Base.{
  ℕ, zero, suc, ◌+◌, ◌-◌, ◌≤◌, ◌≡◌, refl, sym, ap, subst, ◌∙◌, inl, inr, min, ◌||◌, Option, some,
  List, [], ◌∷◌, map, arith, Text, Bytes, length, drop, leb, ◌==◌, Bool-cases, Option-cases,
}
use obsync.Relay.Store
use obsync.Relay.Store.{
  Pointer, DocState, DocsRow, Delta, DocRow, Table, Store, put, pointer_of, moved_row, new_docs_row,
  last_seq, is_null, moved_of, head_of,
}
use obsync.Relay.Store.Contiguous.{IsContiguous, drop-IsContiguous}
use obsync.Relay.Store.Log.{
  IsLog, IsWellFormed, append-none, append-some, seed-none, seed-some, compact-none, compact-some,
  first_update, next_update, folded, row-none, row-some,
}
use obsync.Relay.Store.Spec.{Spec}
use obsync.Relay.Store.Refines.{Holds, Refines, Refines-IsWellFormed, held_some, held_head}
use obsync.Relay.Store.Appending.{held_put_rows, pointed_put}

pub drop_nil : (n : ℕ) → ◌≡◌ {A = List Bytes} (drop n []) []
drop_nil zero = refl
drop_nil (suc n) = refl

pub drop-drop : (m n : ℕ) (us : List Bytes) → drop n (drop m us) ≡ drop (m + n) us
drop-drop zero n us = rw (add.zero n)
drop-drop (suc m) n [] = drop_nil n ∙ sym (drop_nil (suc m + n))
drop-drop (suc m) n (u ∷ us) = rw (add.suc m n) (drop-drop m n us)

pub map-drop :
    (n : ℕ) (xs : List Delta)
    → map (λ (x : Delta). x.blob) (drop n xs) ≡ drop n (map (λ (x : Delta). x.blob) xs)
map-drop zero xs = refl
map-drop (suc n) [] = refl
map-drop (suc n) (x ∷ xs) = map-drop n xs

folded-Refines :
    (c d : Text) (payload : Bytes) (covered : ℕ) (s : Store) (a : Spec) (r : DocsRow)
    (us : List Bytes)
    → Refines s a
    → s.docs c d ≡ some r
    → a.logs c d ≡ some us
    → Holds (some r) (s.deltas c d) (some us)
    → r.snap_seq ≤ covered
    → covered ≤ r.snap_seq + length (s.deltas c d)
    → Refines (folded c d payload covered r s) a
folded-Refines c d payload covered s a r us h e p k low high = record {
  held = λ c' d'.
      held_put_rows c d row' rest s.docs s.deltas a.logs c' d'
        (subst (λ u. Holds row' rest u) (sym p) kept) (h.held c' d');
  pointed = λ c' d'.
      pointed_put c d row' s.docs a.pointers c' d' (sym (ap pointer_of e) ∙ h.pointed c d)
        (h.pointed c' d');
}
  where
    n : ℕ
    n = covered - r.snap_seq

    row' : Option DocsRow
    row' = some (record r { snap = some payload; snap_seq = covered })

    rest : List Delta
    rest = drop n (s.deltas c d)

    sum : r.snap_seq + n ≡ covered
    sum = omega (arith, low)

    kept : Holds row' rest (some us)
    kept = (
      subst (λ m. IsContiguous m rest) sum
          (drop-IsContiguous r.snap_seq n (s.deltas c d) k.0 (omega (arith, high, sum))),
      omega (arith, high, held_head r (s.deltas c d) us k),
      map-drop n (s.deltas c d)
          ∙ (ap (drop n) k.2 ∙ (drop-drop r.snap_seq n us ∙ ap (λ m. drop m us) sum)),
      tt,
    )

pub compact-Refines :
    (c d : Text) (payload : Bytes) (upto : ℕ) (s : Store) (a : Spec)
    → Refines s a
    → Refines (Store.compact c d payload upto s) a
compact-Refines c d payload upto s a h =
    let w = Refines-IsWellFormed s a h in
    elim (Option-cases (s.docs c d)) [
      | inl e ↦ rw (Store.Log.compact-none c d payload upto s e) h
      | inr (r, e) ↦
          let (us, p, k) = held_some c d s a r h e in
          let covered = min upto (r.snap_seq + length (s.deltas c d)) in
          rw (Store.Log.compact-some c d payload upto s r e w)
            (elim (Bool-cases (length payload == 0 || leb covered r.snap_seq)) [
              | inl kept ↦ rw kept h
              | inr taken ↦
                  rw taken (
                    folded-Refines c d payload covered s a r us h e p k (ground arith)
                      (omega arith))
            ])
    ]
