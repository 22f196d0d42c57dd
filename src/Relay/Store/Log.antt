-- ===== src/Relay/Store/Log.antt =====
-- The operations of the store as equations, on a document whose deltas are numbered without a gap
-- from its snapshot on.
use obsync.Base.{
  ℕ, suc, ◌+◌, ◌-◌, ◌≤◌, ◌≡◌, refl, subst, min, ◌||◌, Option, none, some, List, [], ◌∷◌, ◌++◌,
  arith, Text, Bytes, length, drop, leb, ◌==◌, if◌then◌else◌,
}
use obsync.Relay.Store.{
  DocsRow, Delta, Store, put, new_docs_row, row, insert_delta, insert, append, seed, after, compact,
  or_null_text,
}
use obsync.Relay.Store.Contiguous.{
  IsContiguous, last_seq-IsContiguous, insert_delta-IsContiguous, after-drop,
}

-- What the two tables hold of one document.
abbrev pub IsLog : Option DocsRow → List Delta → Type 0
IsLog none xs = xs ≡ []
IsLog (some r) xs = IsContiguous r.snap_seq xs

abbrev pub IsWellFormed : Store → Type 0
IsWellFormed s = (c d : Text) → IsLog (s.docs c d) (s.deltas c d)

-- The head of a document: the number of its last update.
abbrev pub head : Text → Text → Store → ℕ
head c d s = elim (s.docs c d) [ none ↦ 0 | some r ↦ r.snap_seq + length (s.deltas c d) ]

pub log_of_some :
    (c d : Text) (s : Store) (r : DocsRow)
    → s.docs c d ≡ some r
    → IsWellFormed s
    → IsContiguous r.snap_seq (s.deltas c d)
log_of_some c d s r e w = subst (λ o. IsLog o (s.deltas c d)) e (w c d)

pub log_of_none : (c d : Text) (s : Store) → s.docs c d ≡ none → IsWellFormed s → s.deltas c d ≡ []
log_of_none c d s e w = subst (λ o. IsLog o (s.deltas c d)) e (w c d)

pub row-none : (c d : Text) (s : Store) → s.docs c d ≡ none → row c d s ≡ none
unfolding row
row-none c d s e = ground arith

pub row-some :
    (c d : Text) (s : Store) (r : DocsRow)
    → s.docs c d ≡ some r
    → IsWellFormed s
    → row c d s
      ≡ some (record {
        head = r.snap_seq + length (s.deltas c d);
        snap_seq = r.snap_seq;
        moved = r.moved;
        log = or_null_text r.log;
      })
unfolding row
row-some c d s r e w =
    ground (arith, last_seq-IsContiguous r.snap_seq (s.deltas c d) (log_of_some c d s r e w))

-- The stores that `insert` leaves.
abbrev pub first_update : Text → Text → Bytes → Text → Store → Store
first_update c d payload drawn s = record s {
  docs = put c d (some (new_docs_row drawn)) s.docs;
  deltas = put c d (record { seq = 1; blob = payload } ∷ []) s.deltas;
}

abbrev pub next_update : Text → Text → Bytes → ℕ → Store → Store
next_update c d payload n s = record s {
  deltas = put c d (s.deltas c d ++ record { seq = suc n; blob = payload } ∷ []) s.deltas;
}

insert-none :
    (c d : Text) (payload : Bytes) (drawn : Text) (s : Store)
    → s.docs c d ≡ none
    → IsWellFormed s
    → insert c d payload none drawn s ≡ (1, first_update c d payload drawn s)
unfolding insert insert_delta
insert-none c d payload drawn s e w = rw (log_of_none c d s e w)

pub append-none :
    (c d : Text) (payload : Bytes) (drawn : Text) (s : Store)
    → s.docs c d ≡ none
    → IsWellFormed s
    → append c d payload drawn s ≡ (1, first_update c d payload drawn s)
unfolding append
append-none c d payload drawn s e w = rw (row-none c d s e) (insert-none c d payload drawn s e w)

pub append-some :
    (c d : Text) (payload : Bytes) (drawn : Text) (s : Store) (r : DocsRow)
    → s.docs c d ≡ some r
    → IsWellFormed s
    → let n = r.snap_seq + length (s.deltas c d) in
      append c d payload drawn s ≡ (suc n, next_update c d payload n s)
unfolding append insert
append-some c d payload drawn s r e w =
    let n = r.snap_seq + length (s.deltas c d) in
    let δ : Delta = record { seq = suc n; blob = payload } in
    let placed =
      insert_delta-IsContiguous r.snap_seq (s.deltas c d) δ (log_of_some c d s r e w) refl in
    let one_more : n + 1 ≡ suc n = omega arith in rw (row-some c d s r e w, one_more, placed.0)

pub seed-none :
    (c d : Text) (payload : Bytes) (drawn : Text) (s : Store)
    → s.docs c d ≡ none
    → IsWellFormed s
    → seed c d payload drawn s ≡ (some 1, first_update c d payload drawn s)
unfolding seed
seed-none c d payload drawn s e w =
    rw (row-none c d s e, seed) (cc (insert-none c d payload drawn s e w))

pub seed-some :
    (c d : Text) (payload : Bytes) (drawn : Text) (s : Store) (r : DocsRow)
    → s.docs c d ≡ some r
    → seed c d payload drawn s ≡ (none, s)
unfolding seed row
seed-some c d payload drawn s r e = rw (e, seed)

-- The store that `compact` leaves when it takes the snapshot.
abbrev pub folded : Text → Text → Bytes → ℕ → DocsRow → Store → Store
folded c d payload covered r s = record s {
  docs = put c d (some (record r { snap = some payload; snap_seq = covered })) s.docs;
  deltas = put c d (drop (covered - r.snap_seq) (s.deltas c d)) s.deltas;
}

pub compact-none :
    (c d : Text) (payload : Bytes) (upto : ℕ) (s : Store)
    → s.docs c d ≡ none
    → compact c d payload upto s ≡ s
unfolding compact
compact-none c d payload upto s e = rw (row-none c d s e, compact)

pub after-plus :
    (from m : ℕ) (xs : List Delta)
    → IsContiguous from xs
    → from ≤ m
    → after m xs ≡ drop (m - from) xs
after-plus from m xs h k =
    let e : from + (m - from) ≡ m = omega arith in
    subst (λ n. after n xs ≡ drop (m - from) xs) e (after-drop from (m - from) xs h)

pub compact-some :
    (c d : Text) (payload : Bytes) (upto : ℕ) (s : Store) (r : DocsRow)
    → s.docs c d ≡ some r
    → IsWellFormed s
    → let covered = min upto (r.snap_seq + length (s.deltas c d)) in
      compact c d payload upto s ≡ (
        if length payload == 0 || leb covered r.snap_seq then s else folded c d payload covered r s)
unfolding compact
compact-some c d payload upto s r e w =
    let covered = min upto (r.snap_seq + length (s.deltas c d)) in
    rw (row-some c d s r e w, compact)
      (rw e
        (ground (arith, after-plus r.snap_seq covered (s.deltas c d) (log_of_some c d s r e w))))
