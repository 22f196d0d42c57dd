-- ===== src/Spaces/Record/Converging.antt =====
-- The merge of the records holds each id's newest, whatever the order in which they came.
use mathlib.Core.List.{Memᴰ}
use obsync.Base.{
  ◌≡◌, refl, sym, ap, subst, Bool, true, false, ◌&&◌, Option, none, some, List, arith, Text, same,
  same_iff, All, inl, inr, ◌⊎◌, ◌==◌, ◌+◌, ◌<◌,
}
use obsync.Spaces.Record.{SpaceRecord, is_newer, close_record, close_rev_step, merge_records, flat}
use obsync.Spaces.Record.Order.{is_newer_total}
use obsync.Spaces.Record.Newest.{record_of, record_of-merge_records}
use obsync.Spaces.Record.Latest.{All-Memᴰ, IsLatest, newest_from-IsLatest}

-- Records of one id and one revision are one record.
abbrev is_revision : SpaceRecord → SpaceRecord → Bool
is_revision a b = same a.id b.id && (a.rev == b.rev && same a.author b.author)

abbrev pub IsCoherent : List SpaceRecord → Type 0
IsCoherent records = All (λ a. All (λ b. (is_revision a b ≡ false) ⊎ (a ≡ b)) records) records

IsCoherent-same :
    (records : List SpaceRecord) (a b : SpaceRecord)
    → IsCoherent records
    → Memᴰ a records
    → Memᴰ b records
    → is_revision a b ≡ true
    → a ≡ b
IsCoherent-same records a b c ma mb e =
    elim (All-Memᴰ (λ y. (is_revision a y ≡ false) ⊎ (a ≡ y)) records b
      (All-Memᴰ (λ x. All (λ y. (is_revision x y ≡ false) ⊎ (x ≡ y)) records) records a c ma) mb) [
        | inl f ↦ cc
        | inr p ↦ p
      ]

-- Every record of one list is in the other.
abbrev pub IsWithin : List SpaceRecord → List SpaceRecord → Type 0
IsWithin records others = All (λ r. Memᴰ r others) records

no_other :
    (id : Text) (records others : List SpaceRecord) (k : SpaceRecord)
    → IsWithin others records
    → All (λ r. same r.id id ≡ false) records
    → IsLatest id others (some k)
    → ⊥
no_other id records others k within none_here l = ground (
  arith,
  l.0,
  All-Memᴰ (λ r. same r.id id ≡ false) records k none_here
      (All-Memᴰ (λ r. Memᴰ r records) others k within l.1.0),
)

latest_same :
    (id : Text) (records others : List SpaceRecord) (o p : Option SpaceRecord)
    → IsCoherent records
    → IsWithin records others
    → IsWithin others records
    → IsLatest id records o
    → IsLatest id others p
    → o ≡ p
latest_same id records others none none c w v l m = refl
latest_same id records others none (some k) c w v l m = absurd (no_other id records others k v l m)
latest_same id records others (some k) none c w v l m = absurd (no_other id others records k w m l)
latest_same id records others (some a) (some b) c w v l m = ap some (
    IsCoherent-same records a b c l.1.0 b_here (
      ground (
        arith,
        l.0,
        m.0,
        same_iff a.id id,
        same_iff b.id id,
        same_iff a.id b.id,
        same_iff a.author b.author,
        is_newer_total a b ab ba,
      )))
  where
    b_here : Memᴰ b records
    b_here = All-Memᴰ (λ r. Memᴰ r records) others b v m.1.0

    ba : is_newer b a ≡ false
    ba =
        ground (
          arith,
          m.0,
          All-Memᴰ (λ r. (same r.id id && is_newer r a) ≡ false) records b l.1.1 b_here,
        )

    ab : is_newer a b ≡ false
    ab = ground (
      arith,
      l.0,
      All-Memᴰ (λ r. (same r.id id && is_newer r b) ≡ false) others a m.1.1
          (All-Memᴰ (λ r. Memᴰ r others) records a w l.1.0),
    )

-- The merge of any lists of records answers an id by its newest record: it answers one of the records with that id, of which none is newer, or nothing where no record has the id.
merge_records-IsLatest :
    (id : Text) (lists : List (List SpaceRecord))
    → IsLatest id (flat lists) (record_of id (merge_records lists))
merge_records-IsLatest id lists =
    subst (IsLatest id (flat lists)) (sym (record_of-merge_records id lists))
      (newest_from-IsLatest id (flat lists))

-- Two devices that merged the same records, in any order, grouping and number of copies, answer every id by the same record, when records of one id, number and author are one record.
pub merge_records_converges :
    (id : Text) (lists others : List (List SpaceRecord))
    → IsCoherent (flat lists)
    → IsWithin (flat lists) (flat others)
    → IsWithin (flat others) (flat lists)
    → record_of id (merge_records lists) ≡ record_of id (merge_records others)
merge_records_converges id lists others c w v =
    latest_same id (flat lists) (flat others) (record_of id (merge_records lists))
      (record_of id (merge_records others)) c w v (merge_records-IsLatest id lists)
      (merge_records-IsLatest id others)

close-Memᴰ :
    (r k : SpaceRecord) (author : Text)
    → (same k.id r.id ≡ false) ⊎ ((k ≡ close_record r author) ⊎ (k.rev < r.rev + close_rev_step))
    → same k.id r.id ≡ true
    → (same (close_record r author).id r.id && is_newer (close_record r author) k) ≡ false
    → k ≡ close_record r author
unfolding close_record is_newer
close-Memᴰ r k author (inl f) e n = cc
close-Memᴰ r k author (inr (inl p)) e n = p
close-Memᴰ r k author (inr (inr l)) e n = ground (arith, same_iff r.id r.id)

closed-IsLatest :
    (r : SpaceRecord) (author : Text) (records : List SpaceRecord) (o : Option SpaceRecord)
    → Memᴰ (close_record r author) records
    → All
        (λ s.
          (same s.id r.id ≡ false)
          ⊎ ((s ≡ close_record r author) ⊎ (s.rev < r.rev + close_rev_step)))
        records
    → IsLatest r.id records o
    → o ≡ some (close_record r author)
unfolding close_record
closed-IsLatest r author records none m a l = ground (
  arith,
  same_iff r.id r.id,
  All-Memᴰ (λ s. same s.id r.id ≡ false) records (close_record r author) l m,
)
closed-IsLatest r author records (some k) m a l = ap some (
    close-Memᴰ r k author
      (All-Memᴰ
        (λ s.
          (same s.id r.id ≡ false)
          ⊎ ((s ≡ close_record r author) ⊎ (s.rev < r.rev + close_rev_step)))
        records k a l.1.0)
      l.0
      (All-Memᴰ (λ s. (same s.id r.id && is_newer s k) ≡ false) records (close_record r author)
        l.1.1 m))

-- A close wins every merge that holds it: when each other record of the share is fewer than 1,000,000 revisions past the one that was closed, every device answers the share by the closed record.
pub close_record-wins :
    (r : SpaceRecord) (author : Text) (lists : List (List SpaceRecord))
    → Memᴰ (close_record r author) (flat lists)
    → All
        (λ s.
          (same s.id r.id ≡ false)
          ⊎ ((s ≡ close_record r author) ⊎ (s.rev < r.rev + close_rev_step)))
        (flat lists)
    → record_of r.id (merge_records lists) ≡ some (close_record r author)
close_record-wins r author lists m a =
    closed-IsLatest r author (flat lists) (record_of r.id (merge_records lists)) m a
      (merge_records-IsLatest r.id lists)
