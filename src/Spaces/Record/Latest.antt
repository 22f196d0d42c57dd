-- ===== src/Spaces/Record/Latest.antt =====
-- A record that is the newest of those with its id, and the search that finds it.
use mathlib.Core.List.{Memᴰ}
use obsync.Base.{
  ◌≡◌, refl, sym, subst, true, false, ◌&&◌, Option, none, some, List, [], ◌∷◌, arith, Text, same,
  All, Bool-cases, inl, inr, ◌⊎◌,
}
use obsync.Spaces.Record.{SpaceRecord, is_newer}
use obsync.Spaces.Record.Order.{is_newer_irrefl, is_newer_weak, is_newer_trans}
use obsync.Spaces.Record.Newest.{newest_from}

pub All-Memᴰ {ℓ κ} :
    {A : Type ℓ} (P : A → Type κ) (xs : List A) (a : A) → All P xs → Memᴰ a xs → P a
All-Memᴰ P [] a h m = elim m [ ]
All-Memᴰ P (x ∷ xs) a h (Memᴰ.head e) = subst P (sym e) h.0
All-Memᴰ P (x ∷ xs) a h (Memᴰ.tail m) = All-Memᴰ P xs a h.1 m

-- The newest of the records with an id: one of them, with none newer.
abbrev pub IsLatest : Text → List SpaceRecord → Option SpaceRecord → Type 0
IsLatest id records none = All (λ r. same r.id id ≡ false) records
IsLatest id records (some k) =
    (same k.id id ≡ true)
    × (Memᴰ k records × All (λ r. (same r.id id && is_newer r k) ≡ false) records)

-- What the search has, from a record that it knows.
abbrev IsOver : Text → List SpaceRecord → SpaceRecord → SpaceRecord → Type 0
IsOver id records k n =
    (newest_from id records (some k) ≡ some n)
    × ((same n.id id ≡ true)
        × (((n ≡ k) ⊎ Memᴰ n records)
            × ((is_newer k n ≡ false) × All (λ r. (same r.id id && is_newer r n) ≡ false) records)))

known_or_later :
    (n k r : SpaceRecord) (records : List SpaceRecord)
    → (n ≡ k) ⊎ Memᴰ n records
    → (n ≡ k) ⊎ Memᴰ n (r ∷ records)
known_or_later n k r records (inl e) = inl e
known_or_later n k r records (inr m) = inr (Memᴰ.tail m)

first_or_later :
    (n r : SpaceRecord) (records : List SpaceRecord)
    → (n ≡ r) ⊎ Memᴰ n records
    → Memᴰ n (r ∷ records)
first_or_later n r records (inl e) = Memᴰ.head e
first_or_later n r records (inr m) = Memᴰ.tail m

not_newer_before :
    (k r n : SpaceRecord) → is_newer r k ≡ true → is_newer r n ≡ false → is_newer k n ≡ false
not_newer_before k r n h f = ground (arith, is_newer_trans r k n h)

newest_from-IsOver :
    (id : Text) (records : List SpaceRecord) (k : SpaceRecord)
    → same k.id id ≡ true
    → (n : SpaceRecord) × IsOver id records k n
newest_from-IsOver id [] k h = (k, (refl, (h, (inl refl, (is_newer_irrefl k, tt)))))
newest_from-IsOver id (r ∷ records) k h = elim (Bool-cases (same r.id id)) [
  | inr e ↦
      let (n, over) = newest_from-IsOver id records k h in
      (
        n,
        (
          rw e over.0,
          (
            over.1.0,
            (known_or_later n k r records over.1.1.0, (over.1.1.1.0, (rw e refl, over.1.1.1.1))),
          ),
        ),
      )
  | inl e ↦ elim (Bool-cases (is_newer r k)) [
    | inr f ↦
        let (n, over) = newest_from-IsOver id records k h in
        (
          n,
          (
            rw (e, f) over.0,
            (
              over.1.0,
              (
                known_or_later n k r records over.1.1.0,
                (over.1.1.1.0, (ground (arith, is_newer_weak r k n f over.1.1.1.0), over.1.1.1.1)),
              ),
            ),
          ),
        )
    | inl f ↦
        let (n, over) = newest_from-IsOver id records r e in
        (
          n,
          (
            rw (e, f) over.0,
            (
              over.1.0,
              (
                inr (first_or_later n r records over.1.1.0),
                (
                  not_newer_before k r n f over.1.1.1.0,
                  (ground (arith, over.1.1.1.0), over.1.1.1.1),
                ),
              ),
            ),
          ),
        )
  ]
]

pub newest_from-IsLatest :
    (id : Text) (records : List SpaceRecord) → IsLatest id records (newest_from id records none)
newest_from-IsLatest id [] = tt
newest_from-IsLatest id (r ∷ records) = elim (Bool-cases (same r.id id)) [
  | inr e ↦ rw e (past (newest_from id records none) e (newest_from-IsLatest id records))
  | inl e ↦
      let (n, over) = newest_from-IsOver id records r e in
      rw (e, over.0)
        (
          over.1.0,
          (first_or_later n r records over.1.1.0, (ground (arith, over.1.1.1.0), over.1.1.1.1)),
        )
]
  where
    past :
        (o : Option SpaceRecord)
        → same r.id id ≡ false
        → IsLatest id records o
        → IsLatest id (r ∷ records) o
    past none e l = (e, l)
    past (some k) e l = (l.0, (Memᴰ.tail l.1.0, (ground arith, l.1.1)))
