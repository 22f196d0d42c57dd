-- ===== src/Spaces/Record/Newest.antt =====
-- What the merged records hold for an id.
use obsync.Base.{
  ◌≡◌, refl, sym, ap, ◌∙◌, Option, none, some, List, [], ◌∷◌, arith, Text, text_dec, same, same_iff,
  find?, All, if◌then◌else◌,
}
use obsync.Base.Dict
use obsync.Base.Dict.{Dict}
use obsync.Base.Keys.{IsUnique, insert-IsUnique}
use obsync.Sync.Moves.{values}
use obsync.Spaces.Record.{
  SpaceRecord, is_newer, keep_newest, newest_by_id, insert_by_id, sort_onto, flat, merge_records,
}

-- The first record with an id.
abbrev pub record_of : Text → List SpaceRecord → Option SpaceRecord
record_of id records = find? (λ r. same r.id id) records

abbrev newer_of : SpaceRecord → Option SpaceRecord → Option SpaceRecord
newer_of r none = some r
newer_of r (some known) = if is_newer r known then some r else some known

-- The newest record with an id, from one that is known.
abbrev pub newest_from : Text → List SpaceRecord → Option SpaceRecord → Option SpaceRecord
newest_from id [] known = known
newest_from id (r ∷ records) known =
    newest_from id records (if same r.id id then newer_of r known else known)

lookup-keep_newest :
    (id : Text) (r : SpaceRecord) (m : Dict Text SpaceRecord)
    → Dict.lookup text_dec id (keep_newest r m)
      ≡ (if same r.id id then newer_of r (Dict.lookup text_dec id m) else Dict.lookup text_dec id m)
unfolding keep_newest
lookup-keep_newest id r m =
    ground (arith, Dict.lookup-insert text_dec id r.id r m, ap (λ k. Dict.lookup text_dec k m))

lookup-newest_by_id :
    (id : Text) (records : List SpaceRecord) (m : Dict Text SpaceRecord)
    → Dict.lookup text_dec id (newest_by_id records m)
      ≡ newest_from id records (Dict.lookup text_dec id m)
unfolding newest_by_id
lookup-newest_by_id id [] m = refl
lookup-newest_by_id id (r ∷ records) m =
    lookup-newest_by_id id records (keep_newest r m)
    ∙ ap (newest_from id records) (lookup-keep_newest id r m)

-- Every record is under its id, and an id stands once.
abbrev IsKeyed : Dict Text SpaceRecord → Type 0
IsKeyed m = All (λ e. e.0 ≡ e.1.id) m × IsUnique m

insert-keyed :
    (r : SpaceRecord) (m : Dict Text SpaceRecord)
    → All (λ e. e.0 ≡ e.1.id) m
    → All (λ e. e.0 ≡ e.1.id) (Dict.insert text_dec r.id r m)
unfolding Dict.insert
insert-keyed r [] h = (refl, tt)
insert-keyed r ((j, s) ∷ m) h = ground (arith, insert-keyed r m h.1)

keep_newest-IsKeyed :
    (r : SpaceRecord) (m : Dict Text SpaceRecord) → IsKeyed m → IsKeyed (keep_newest r m)
unfolding keep_newest
keep_newest-IsKeyed r m h = ground (arith, insert-keyed r m h.0, insert-IsUnique r.id r m h.1)

newest_by_id-IsKeyed :
    (records : List SpaceRecord) (m : Dict Text SpaceRecord)
    → IsKeyed m
    → IsKeyed (newest_by_id records m)
unfolding newest_by_id
newest_by_id-IsKeyed [] m h = h
newest_by_id-IsKeyed (r ∷ records) m h =
    newest_by_id-IsKeyed records (keep_newest r m) (keep_newest-IsKeyed r m h)

-- No two records have one id.
abbrev pub HasDistinctIds : List SpaceRecord → Type 0
HasDistinctIds [] = Unit
HasDistinctIds (r ∷ records) = (record_of r.id records ≡ none) × HasDistinctIds records

record_of-values :
    (id : Text) (m : Dict Text SpaceRecord)
    → All (λ e. e.0 ≡ e.1.id) m
    → record_of id (values m) ≡ Dict.lookup text_dec id m
unfolding Dict.lookup
record_of-values id [] h = refl
record_of-values id ((j, r) ∷ m) h = ground (arith, record_of-values id m h.1)

values-HasDistinctIds : (m : Dict Text SpaceRecord) → IsKeyed m → HasDistinctIds (values m)
values-HasDistinctIds [] h = tt
values-HasDistinctIds ((j, r) ∷ m) h =
    (record_of-values r.id m h.0.1 ∙ (rw (sym h.0.0) h.1.0), values-HasDistinctIds m (h.0.1, h.1.1))

record_of-insert_by_id :
    (id : Text) (r : SpaceRecord) (sorted : List SpaceRecord)
    → record_of r.id sorted ≡ none
    → record_of id (insert_by_id r sorted) ≡ (if same r.id id then some r else record_of id sorted)
record_of-insert_by_id id r [] h = refl
record_of-insert_by_id id r (s ∷ sorted) h = ground (arith, record_of-insert_by_id id r sorted)

abbrev or_else : Option SpaceRecord → Option SpaceRecord → Option SpaceRecord
or_else none o = o
or_else (some r) o = some r

insert-absent :
    (r : SpaceRecord) (sorted records : List SpaceRecord)
    → record_of r.id sorted ≡ none
    → record_of r.id records ≡ none
    → All (λ s. record_of s.id sorted ≡ none) records
    → All (λ s. record_of s.id (insert_by_id r sorted) ≡ none) records
insert-absent r sorted [] h k a = tt
insert-absent r sorted (s ∷ records) h k a = (
  ground (arith, record_of-insert_by_id s.id r sorted, same_iff r.id s.id, same_iff s.id r.id),
  insert-absent r sorted records h (ground arith) a.1,
)

record_of-sort_onto :
    (id : Text) (records sorted : List SpaceRecord)
    → HasDistinctIds records
    → All (λ s. record_of s.id sorted ≡ none) records
    → record_of id (sort_onto records sorted) ≡ or_else (record_of id sorted) (record_of id records)
record_of-sort_onto id [] sorted d a = ground arith
record_of-sort_onto id (r ∷ records) sorted d a =
    record_of-sort_onto id records (insert_by_id r sorted) d.1
      (insert-absent r sorted records a.0 d.0 a.1)
    ∙ ground (
      arith,
      record_of-insert_by_id id r sorted a.0,
      same_iff r.id id,
      ap (λ t. record_of t sorted),
    )

absent-nil : (records : List SpaceRecord) → All (λ s. record_of s.id [] ≡ none) records
absent-nil [] = tt
absent-nil (r ∷ records) = (refl, absent-nil records)

pub record_of-merge_records :
    (id : Text) (lists : List (List SpaceRecord))
    → record_of id (merge_records lists) ≡ newest_from id (flat lists) none
unfolding merge_records Dict.lookup
record_of-merge_records id lists =
    record_of-sort_onto id (values merged) [] (values-HasDistinctIds merged keyed)
      (absent-nil (values merged))
    ∙ (record_of-values id merged keyed.0 ∙ lookup-newest_by_id id (flat lists) [])
  where
    merged : Dict Text SpaceRecord
    merged = newest_by_id (flat lists) []

    keyed : IsKeyed merged
    keyed = newest_by_id-IsKeyed (flat lists) [] (tt, tt)
