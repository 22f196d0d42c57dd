-- ===== src/Sync/Pairing/Groups.antt =====
-- What `groupBy` gives: each group is what the filter by its key gives.
use obsync.Base.{
  ◌≡◌, sym, ap, ◌∙◌, List, [], ◌∷◌, ◌++◌, append_assoc, append-nil, arith, Text, text_dec, same,
  filter, All,
}
use obsync.Base.Dict
use obsync.Base.Keys.{IsUnique, IsFound, insert-IsUnique, IsUnique-IsFound}
use obsync.Base.Dict.{Dict}
use obsync.Sync.Pairing.{or_no_items, group_from, group_by}

module _ {A : Type 0} (key : A → Text) where
  abbrev pub with_key : Text → List A → List A
  with_key k xs = filter (λ x. same (key x) k) xs

  group_from-IsUnique :
      (xs : List A) (m : List (Text × List A)) → IsUnique m → IsUnique (group_from key xs m)
  unfolding group_from
  group_from-IsUnique [] m h = h
  group_from-IsUnique (x ∷ xs) m h = group_from-IsUnique xs _ (insert-IsUnique (key x) _ m h)

  step_group :
      (x : A) (k : Text) (xs : List A) (m : List (Text × List A))
      → or_no_items (
            Dict.lookup text_dec k (
              Dict.insert text_dec
                (key x)
                (or_no_items (Dict.lookup text_dec (key x) m) ++ x ∷ [])
                m))
          ++ with_key k xs
        ≡ or_no_items (Dict.lookup text_dec k m) ++ with_key k (x ∷ xs)
  step_group x k xs m = ground (
    arith,
    Dict.lookup-insert text_dec k (key x) (or_no_items (Dict.lookup text_dec (key x) m) ++ x ∷ [])
        m,
    append_assoc (or_no_items (Dict.lookup text_dec (key x) m)) (x ∷ []) (with_key k xs),
  )

  lookup-group_from :
      (k : Text) (xs : List A) (m : List (Text × List A))
      → or_no_items (Dict.lookup text_dec k (group_from key xs m))
        ≡ or_no_items (Dict.lookup text_dec k m) ++ with_key k xs
  unfolding group_from
  lookup-group_from k [] m = sym (append-nil (or_no_items (Dict.lookup text_dec k m)))
  lookup-group_from k (x ∷ xs) m = lookup-group_from k xs _ ∙ step_group x k xs m

  pub lookup-group_by :
      (k : Text) (xs : List A)
      → or_no_items (Dict.lookup text_dec k (group_by key xs)) ≡ with_key k xs
  unfolding group_by Dict.lookup
  lookup-group_by k xs = lookup-group_from k xs []

  abbrev pub IsGroup : List A → Text × List A → Type 0
  IsGroup xs e = e.1 ≡ with_key e.0 xs

  groups_of_found :
      (xs : List A) (es : List (Text × List A))
      → All (IsFound (group_by key xs)) es
      → All (IsGroup xs) es
  groups_of_found xs [] h = tt
  groups_of_found xs (e ∷ es) h =
      (ap or_no_items (sym h.0) ∙ lookup-group_by e.0 xs, groups_of_found xs es h.1)

  pub group_by-IsGroup : (xs : List A) → All (IsGroup xs) (group_by key xs)
  unfolding group_by
  group_by-IsGroup xs =
      groups_of_found xs (group_by key xs)
        (IsUnique-IsFound (group_by key xs) (group_from-IsUnique xs [] tt))
