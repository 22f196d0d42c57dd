-- ===== src/Relay/Store.antt =====
-- packages/relay/src/hub/store.ts. Each SQL table is a function of its primary key's channel and
-- document; the deltas of a document stand in the order of their `seq`, as the table keeps them.
-- The name that SQLite draws for a new log is an argument.
pub mod CacheKey
pub mod Contiguous
pub mod Log
pub mod Spec
pub mod Refines
pub mod Appending
pub mod Folding
pub mod Simulation
pub mod Snapshots
pub mod Reader
pub mod Cache
pub mod Tracking
pub mod History
pub mod Purge
use obsync.Base.{
  ℕ, zero, suc, ◌+◌, max, min, Bool, true, false, not, ◌&&◌, ◌||◌, Option, none, some, List, [],
  ◌∷◌, ◌++◌, map, Text, Bytes, text_dec, ite, length, filter, ltb, leb, ◌==◌, if◌then◌else◌,
  ℕ_discrete,
}
use obsync.Base.Dict
use obsync.Base.Dict.{Dict}
use obsync.Base.Decimal.{decimal}

-- Where a moved document continued, and the sealed note its mover left there.
pub record Pointer : Type 0 where
  pub target : Text
  pub note : Bytes

-- What `state` answers.
pub record DocState : Type 0 where
  pub head : ℕ
  pub snapshot : Option Bytes
  pub deltas : List Bytes
  pub log : Text

-- A row of the table `docs`, with NULL as `none`.
pub record DocsRow : Type 0 where
  pub snap_seq : ℕ
  pub moved : Option Text
  pub moved_note : Option Bytes
  pub snap : Option Bytes
  pub log : Option Text

-- A row of the table `deltas`.
pub record Delta : Type 0 where
  pub seq : ℕ
  pub blob : Bytes

-- `DocRow`, which the method `row` computes.
pub record DocRow : Type 0 where
  pub head : ℕ
  pub snap_seq : ℕ
  pub moved : Option Text
  pub log : Text

abbrev pub moved_cache_max : ℕ
moved_cache_max = 1024

abbrev pub Table : Type 0 → Type 0
Table A = Text → Text → A

-- `moved` is the cache of `movedTo`, whose answers may be `null`.
pub record Store : Type 0 where
  pub docs : Table (Option DocsRow)
  pub deltas : Table (List Delta)
  pub moved : Dict Text (Option Pointer)

abbrev pub new_store : Store
new_store = record { docs = λ c d. none; deltas = λ c d. []; moved = [] }

-- The table with one entry replaced.
abbrev pub put {ℓ} : {A : Type ℓ} → Text → Text → A → (Text → Text → A) → Text → Text → A
put c d v t c' d' = ite (text_dec c c') (ite (text_dec d d') v (t c' d')) (t c' d')

unfoldable pub cache_key : Text → Text → Text
cache_key channel doc = decimal (length channel) ++ 58 ∷ (channel ++ doc)

abbrev pub or_null_text : Option Text → Text
or_null_text none = []
or_null_text (some s) = s

abbrev pub or_no_bytes : Option Bytes → Bytes
or_no_bytes none = []
or_no_bytes (some b) = b

-- The pointer that the row of a document holds.
abbrev pub pointer_of : Option DocsRow → Option Pointer
pointer_of none = none
pointer_of (some row) = elim row.moved [
  | none ↦ none
  | some target ↦ some (record { target = target; note = or_no_bytes row.moved_note })
]

-- `this.moved.delete(this.moved.keys().next().value)`.
abbrev pub drop_oldest : Dict Text (Option Pointer) → Dict Text (Option Pointer)
drop_oldest [] = []
drop_oldest ((k, v) ∷ m) = Dict.erase text_dec k m

abbrev pub has : Text → Dict Text (Option Pointer) → Bool
has k m = elim (Dict.lookup text_dec k m) [ none ↦ false | some v ↦ true ]

unfoldable pub remember : Text → Option Pointer → Store → Store
remember key pointer s =
    let kept =
      if leb moved_cache_max (length s.moved) && not (has key s.moved)
      then drop_oldest s.moved
      else s.moved in
    record s { moved = Dict.insert text_dec key pointer kept }

unfoldable pub moved_to : Text → Text → Store → Option Pointer × Store
moved_to channel doc s = elim (Dict.lookup text_dec (cache_key channel doc) s.moved) [
  | some known ↦ (known, s)
  | none ↦
      let pointer = pointer_of (s.docs channel doc) in
      (pointer, remember (cache_key channel doc) pointer s)
]

-- `DELETE FROM … WHERE channel = ?`, and `this.moved.clear()`.
unfoldable pub purge : Text → Store → Store
purge channel s = record {
  docs = λ c d. ite (text_dec channel c) none (s.docs c d);
  deltas = λ c d. ite (text_dec channel c) [] (s.deltas c d);
  moved = [];
}

-- `max(seq)`, whose NULL on no rows is read as 0.
abbrev pub last_seq : List Delta → ℕ
last_seq [] = 0
last_seq (x ∷ xs) = max x.seq (last_seq xs)

unfoldable pub row : Text → Text → Store → Option DocRow
row channel doc s = elim (s.docs channel doc) [
  | none ↦ none
  | some r ↦ some (record {
    head = max (last_seq (s.deltas channel doc)) r.snap_seq;
    snap_seq = r.snap_seq;
    moved = r.moved;
    log = or_null_text r.log;
  })
]

-- `row?.head ?? 0`.
abbrev pub head_of : Option DocRow → ℕ
head_of none = 0
head_of (some r) = r.head

-- Into the place that `seq` gives the row.
unfoldable pub insert_delta : Delta → List Delta → List Delta
insert_delta δ [] = δ ∷ []
insert_delta δ (x ∷ xs) = if ltb δ.seq x.seq then δ ∷ x ∷ xs else x ∷ insert_delta δ xs

abbrev pub new_docs_row : Text → DocsRow
new_docs_row log = record {
  snap_seq = 0;
  moved = none;
  moved_note = none;
  snap = none;
  log = some log;
}

-- `insert`: the docs row is made where `row` is null.
unfoldable pub insert : Text → Text → Bytes → Option DocRow → Text → Store → ℕ × Store
unfolding insert_delta
insert channel doc payload known drawn s =
    let docs : Table (Option DocsRow) = elim known [
      | none ↦ put channel doc (some (new_docs_row drawn)) s.docs
      | some r ↦ s.docs
    ] in
    let seq = head_of known + 1 in
    let δ : Delta = record { seq = seq; blob = payload } in
    (
      seq,
      record s {
        docs = docs;
        deltas = put channel doc (insert_delta δ (s.deltas channel doc)) s.deltas;
      },
    )

unfoldable pub append : Text → Text → Bytes → Text → Store → ℕ × Store
unfolding insert row
append channel doc payload drawn s = insert channel doc payload (row channel doc s) drawn s

unfoldable pub seed : Text → Text → Bytes → Text → Store → Option ℕ × Store
unfolding insert row
seed channel doc payload drawn s = elim (row channel doc s) [
  | some r ↦ (none, s)
  | none ↦ let (seq, s') = insert channel doc payload none drawn s in (some seq, s')
]

-- The upsert of a pointer: a row that is there keeps its log.
abbrev pub moved_row : Option DocsRow → Pointer → DocsRow
moved_row none p = record {
  snap_seq = 0;
  moved = some p.target;
  moved_note = some p.note;
  snap = none;
  log = none;
}
moved_row (some r) p = record {
  snap_seq = 0;
  moved = some p.target;
  moved_note = some p.note;
  snap = none;
  log = r.log;
}

unfoldable pub mark_moved : Text → Text → Pointer → Store → Store
mark_moved channel doc pointer s = remember (cache_key channel doc) (some pointer) (record s {
  docs = put channel doc (some (moved_row (s.docs channel doc) pointer)) s.docs;
  deltas = put channel doc [] s.deltas;
})

abbrev pub moved_of : Option DocRow → Option Text
moved_of none = none
moved_of (some r) = r.moved

abbrev pub is_null {ℓ} : {A : Type ℓ} → Option A → Bool
is_null none = true
is_null (some a) = false

unfoldable pub rotate : Text → Text → Pointer → ℕ → Bytes → Text → Store → Bool × Store
rotate channel doc pointer upto payload drawn s =
    let r = row channel doc s in
    if not (is_null (moved_of r)) || not (head_of r == upto)
    then (false, s)
    else (let (seq, s') = seed channel pointer.target payload drawn s in
        if is_null seq then (false, s') else (true, mark_moved channel doc pointer s'))

-- `seq > since`.
abbrev pub after : ℕ → List Delta → List Delta
after since = filter (λ x. ltb since x.seq)

abbrev pub snapshot : Text → Text → Store → Option Bytes
snapshot channel doc s = elim (s.docs channel doc) [ none ↦ none | some r ↦ r.snap ]

unfoldable pub state : Text → Text → ℕ → Store → DocState
unfolding row
state channel doc since s = elim (row channel doc s) [
  | none ↦ record { head = 0; snapshot = none; deltas = []; log = [] }
  | some r ↦ record {
    head = r.head;
    snapshot = if ltb since r.snap_seq then snapshot channel doc s else none;
    deltas = map (λ x. x.blob) (after (max since r.snap_seq) (s.deltas channel doc));
    log = r.log;
  }
]

abbrev pub with_snapshot : Option DocsRow → Bytes → ℕ → Option DocsRow
with_snapshot none payload covered = none
with_snapshot (some r) payload covered = some (record r { snap = some payload; snap_seq = covered })

unfoldable pub compact : Text → Text → Bytes → ℕ → Store → Store
unfolding row
compact channel doc payload upto s = elim (row channel doc s) [
  | none ↦ s
  | some r ↦
      let covered = min upto r.head in
      if length payload == 0 then s else if leb covered r.snap_seq then s else record s {
        docs = put channel doc (with_snapshot (s.docs channel doc) payload covered) s.docs;
        deltas = put channel doc (after covered (s.deltas channel doc)) s.deltas;
      }
]
