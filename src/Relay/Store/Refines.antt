-- ===== src/Relay/Store/Refines.antt =====
-- The store refines its specification, operation by operation.
use obsync.Base.{
  ℕ, zero, suc, ◌+◌, ◌-◌, ◌≤◌, ◌≡◌, refl, ap, subst, Option, none, some, List, [], ◌∷◌, map, arith,
  Text, Bytes, length, drop,
}
use obsync.Relay.Store.{DocsRow, Delta, Store, pointer_of}
use obsync.Relay.Store.Contiguous.{IsContiguous}
use obsync.Relay.Store.Log.{IsLog, IsWellFormed}
use obsync.Relay.Store.Spec.{Spec}

-- Updates are missing from the rows only under a snapshot.
abbrev pub IsCovered : Option Bytes → ℕ → Type 0
IsCovered none n = n ≡ 0
IsCovered (some b) n = Unit

-- One document: the rows hold the updates that no snapshot covers.
abbrev pub Holds : Option DocsRow → List Delta → Option (List Bytes) → Type 0
Holds none xs none = xs ≡ []
Holds none xs (some us) = ⊥
Holds (some r) xs none = ⊥
Holds (some r) xs (some us) =
    IsContiguous r.snap_seq xs
    × (r.snap_seq ≤ length us)
    × (map (λ (x : Delta). x.blob) xs ≡ drop r.snap_seq us)
    × IsCovered r.snap r.snap_seq

pub record Refines (s : Store) (a : Spec) : Type 0 where
  pub held : (c d : Text) → Holds (s.docs c d) (s.deltas c d) (a.logs c d)
  pub pointed : (c d : Text) → pointer_of (s.docs c d) ≡ a.pointers c d

Holds-IsLog :
    (o : Option DocsRow) (xs : List Delta) (u : Option (List Bytes)) → Holds o xs u → IsLog o xs
Holds-IsLog none xs none h = h
Holds-IsLog none xs (some us) h = elim h [ ]
Holds-IsLog (some r) xs none h = elim h [ ]
Holds-IsLog (some r) xs (some us) h = h.0

pub Refines-IsWellFormed : (s : Store) (a : Spec) → Refines s a → IsWellFormed s
Refines-IsWellFormed s a h c d = Holds-IsLog (s.docs c d) (s.deltas c d) (a.logs c d) (h.held c d)

pub held_none :
    (c d : Text) (s : Store) (a : Spec) → Refines s a → s.docs c d ≡ none → a.logs c d ≡ none
held_none c d s a h e =
    go (a.logs c d) (subst (λ o. Holds o (s.deltas c d) (a.logs c d)) e (h.held c d))
  where
    go : (u : Option (List Bytes)) → Holds none (s.deltas c d) u → u ≡ none
    go none k = refl
    go (some us) k = elim k [ ]

pub held_some :
    (c d : Text) (s : Store) (a : Spec) (r : DocsRow)
    → Refines s a
    → s.docs c d ≡ some r
    → (us : List Bytes) × (a.logs c d ≡ some us) × (Holds (some r) (s.deltas c d) (some us))
held_some c d s a r h e =
    go (a.logs c d) (subst (λ o. Holds o (s.deltas c d) (a.logs c d)) e (h.held c d))
  where
    go :
        (u : Option (List Bytes))
        → Holds (some r) (s.deltas c d) u
        → (us : List Bytes) × (u ≡ some us) × (Holds (some r) (s.deltas c d) (some us))
    go none k = elim k [ ]
    go (some us) k = (us, refl, k)

length-blobs : (xs : List Delta) → length (map (λ (x : Delta). x.blob) xs) ≡ length xs
length-blobs [] = refl
length-blobs (x ∷ xs) = ap suc (length-blobs xs)

length-drop : (n : ℕ) (us : List Bytes) → length (drop n us) ≡ length us - n
length-drop zero us = omega arith
length-drop (suc n) [] = omega arith
length-drop (suc n) (u ∷ us) = omega (arith, length-drop n us)

-- The head of the store is the number of updates.
pub held_head :
    (r : DocsRow) (xs : List Delta) (us : List Bytes)
    → Holds (some r) xs (some us)
    → r.snap_seq + length xs ≡ length us
held_head r xs us h = omega (arith, length-blobs xs, ap length h.2, length-drop r.snap_seq us)
