-- ===== src/Sync/Pairing/Pairs.antt =====
-- When `pairUp` takes two paths for a move.
use obsync.Base.{
  ◌≡◌, ◌≢◌, refl, sym, subst, ◌∙◌, ◌⊎◌, inl, inr, Bool, true, false, Option, none, some, List, [],
  ◌∷◌, arith, Text, text_dec, same, length, ◌==◌, ◌&&◌, ◌||◌, All, All-append, if◌then◌else◌,
}
use obsync.Base.Dict
use obsync.Sync.Pairing.{
  Candidate, empty_hash, name_of, group_by, or_no_items, single, first, add_pair, pair_names,
  pair_group, pair_groups, pair_up,
}
use obsync.Sync.Pairing.Groups.{with_key, IsGroup, lookup-group_by, group_by-IsGroup}

abbrev hash_key : Candidate → Text
hash_key c = c.hash

abbrev name_key : Candidate → Text
name_key c = name_of c.path

abbrev pub with_hash : Text → List Candidate → List Candidate
with_hash hash = with_key hash_key hash

abbrev pub with_name : Text → List Candidate → List Candidate
with_name name = with_key name_key name

-- The two candidates are the only ones with the hash, or the only ones with the hash and the name.
abbrev pub IsUnambiguous : List Candidate → List Candidate → Text → Candidate → Candidate → Type 0
IsUnambiguous gone fresh hash g h =
    ((with_hash hash gone ≡ g ∷ []) × (with_hash hash fresh ≡ h ∷ []))
    ⊎ ((name : Text) × (with_name name (with_hash hash gone) ≡ g ∷ [])
        × (with_name name (with_hash hash fresh) ≡ h ∷ []))

-- The pair is of a gone and a fresh candidate that share a hash which says something.
abbrev pub IsMatch : List Candidate → List Candidate → Text × Text → Type 0
IsMatch gone fresh p =
    (hash : Text) × (g : Candidate) × (h : Candidate) × (p ≡ (g.path, h.path))
    × (hash ≢ [])
    × (hash ≢ empty_hash)
    × IsUnambiguous gone fresh hash g h

All-if {ℓ κ} :
    {A : Type ℓ} (P : A → Type κ) (b : Bool) (xs ys : List A)
    → (b ≡ true → All P xs)
    → (b ≡ false → All P ys)
    → All P (if b then xs else ys)
All-if P true xs ys f g = f refl
All-if P false xs ys f g = g refl

add_pair-IsMatch :
    (gone fresh : List Candidate) (a b : Option Candidate)
    → ((g h : Candidate) → a ≡ some g → b ≡ some h → IsMatch gone fresh (g.path, h.path))
    → All (IsMatch gone fresh) (add_pair a b)
add_pair-IsMatch gone fresh (some g) (some h) f = (f g h refl refl, tt)
add_pair-IsMatch gone fresh none b f = tt
add_pair-IsMatch gone fresh (some g) none f = tt

single_of :
    (xs : Option (List Candidate)) (g : Candidate) → single xs ≡ some g → or_no_items xs ≡ g ∷ []
single_of none g e = cc
single_of (some []) g e = cc
single_of (some (x ∷ [])) g e = cc
single_of (some (x ∷ y ∷ xs)) g e = cc

first_of : (xs : List Candidate) (g : Candidate) → length xs ≡ 1 → first xs ≡ some g → xs ≡ g ∷ []
first_of [] g n e = cc
first_of (x ∷ []) g n e = cc
first_of (x ∷ y ∷ xs) g n e = absurd (omega (arith, n))

module _ (gone fresh : List Candidate) (hash : Text) where
  abbrev Telling : Type 0
  Telling = (hash ≢ []) × (hash ≢ empty_hash)

  pair_names-IsMatch :
      (groups : List (Text × List Candidate))
      → Telling
      → All (IsGroup name_key (with_hash hash gone)) groups
      → All (IsMatch gone fresh) (pair_names groups (group_by name_key (with_hash hash fresh)))
  unfolding pair_names
  pair_names-IsMatch [] t h = tt
  pair_names-IsMatch ((name, from) ∷ groups) t h =
      let named = Dict.lookup text_dec name (group_by name_key (with_hash hash fresh)) in
      All-append (IsMatch gone fresh) (add_pair (single (some from)) (single named)) _
        (add_pair-IsMatch gone fresh (single (some from)) (single named) (λ g k e f. (
          hash,
          g,
          k,
          refl,
          t.0,
          t.1,
          inr (
            name,
            sym h.0 ∙ single_of (some from) g e,
            sym (lookup-group_by name_key name (with_hash hash fresh)) ∙ single_of named k f,
          ),
        )))
        (pair_names-IsMatch groups t h.1)

  pair_some-IsMatch :
      (sources into : List Candidate)
      → sources ≡ with_hash hash gone
      → into ≡ with_hash hash fresh
      → All (IsMatch gone fresh) (pair_group hash sources (some into))
  unfolding pair_group
  pair_some-IsMatch sources into e f =
      All-if (IsMatch gone fresh) (length hash == 0 || same hash empty_hash) _ _ (λ void. tt)
        (λ full.
          let t : Telling = (ground arith, ground arith) in
          All-if (IsMatch gone fresh) (length sources == 1 && length into == 1) _ _
            (λ lone. add_pair-IsMatch gone fresh (first sources) (first into) (λ g h p q. (
              hash,
              g,
              h,
              refl,
              t.0,
              t.1,
              inl (
                sym e ∙ first_of sources g (ground arith) p,
                sym f ∙ first_of into h (ground arith) q,
              ),
            )))
            (λ many.
              subst
                (λ xs.
                  All (IsMatch gone fresh)
                    (pair_names (group_by name_key xs) (group_by name_key into)))
                (sym e)
                (subst
                  (λ ys.
                    All (IsMatch gone fresh)
                      (pair_names (group_by name_key (with_hash hash gone)) (group_by name_key ys)))
                  (sym f)
                  (pair_names-IsMatch (group_by name_key (with_hash hash gone)) t
                    (group_by-IsGroup name_key (with_hash hash gone))))))

  pair_group-IsMatch :
      (sources : List Candidate) (into : Option (List Candidate))
      → sources ≡ with_hash hash gone
      → or_no_items into ≡ with_hash hash fresh
      → All (IsMatch gone fresh) (pair_group hash sources into)
  unfolding pair_group
  pair_group-IsMatch sources none e f = tt
  pair_group-IsMatch sources (some into) e f = pair_some-IsMatch sources into e f

module _ (gone fresh : List Candidate) where
  pair_groups-IsMatch :
      (groups : List (Text × List Candidate))
      → All (IsGroup hash_key gone) groups
      → All (IsMatch gone fresh) (pair_groups groups (group_by hash_key fresh))
  unfolding pair_groups
  pair_groups-IsMatch [] h = tt
  pair_groups-IsMatch ((hash, sources) ∷ groups) h =
      All-append (IsMatch gone fresh) (pair_group hash sources _) _
        (pair_group-IsMatch gone fresh hash sources _ h.0 (lookup-group_by hash_key hash fresh))
        (pair_groups-IsMatch groups h.1)

  -- Two paths are taken for a move only if the gone one and the fresh one share a hash, other than
  -- none and that of an empty file, and are each the only candidate on its side with that hash, or
  -- the only one with that hash and one file name.
  pub pair_up-IsMatch : All (IsMatch gone fresh) (pair_up gone fresh)
  unfolding pair_up
  pair_up-IsMatch = pair_groups-IsMatch (group_by hash_key gone) (group_by-IsGroup hash_key gone)
