-- ===== src/Spaces/Paths/RoundTrip.antt =====
-- A manifest that was moved below a root comes back as it was.
use obsync.Base.{
  ◌+◌, ◌≡◌, refl, sym, ap, ap₂, ◌∙◌, false, Option, none, some, List, [], ◌∷◌, ◌++◌, map,
  append-nil, append_assoc, arith, Text, text_dec, same, same_iff, length, drop, drop-length_append,
  ◌==◌, All, inl, inr, Bool-cases, subst,
}
use obsync.Base.Dict
use obsync.Base.Dict.{Dict}
use obsync.Base.Keys.{IsUnique}
use obsync.Sync.Types.{Manifest}
use obsync.Spaces.Space.{slash}
use obsync.Spaces.Space.Owner.{starts_with-append, length-slash}
use obsync.Spaces.Paths.{
  Rekey, strip_root, add_root, rekey_onto, rekey_record, ◌>>=◌, rekey_all, rekey_folders,
  rekey_manifest, manifest_to_space, manifest_to_vault,
}

strip-add : (root path : Text) → strip_root root (slash root ++ path) ≡ some path
strip-add root path = rw (starts_with-append (slash root) path) (
    ap some (
      ap (λ n. drop n (slash root ++ path)) (sym (length-slash root))
      ∙ drop-length_append (slash root) path))

insert-absent :
    {V : Type 0} (k : Text) (v : V) (m : Dict Text V)
    → Dict.lookup text_dec k m ≡ none
    → Dict.insert text_dec k v m ≡ m ++ (k, v) ∷ []
unfolding Dict.lookup Dict.insert
insert-absent k v [] h = refl
insert-absent k v ((j, w) ∷ m) h = ground (arith, insert-absent k v m)

abbrev map_keys : {V : Type 0} → (Text → Text) → List (Text × V) → List (Text × V)
map_keys g [] = []
map_keys g ((k, v) ∷ m) = (g k, v) ∷ map_keys g m

lookup-snoc :
    {V : Type 0} (j k : Text) (v : V) (m : Dict Text V)
    → Dict.lookup text_dec j m ≡ none
    → same k j ≡ false
    → Dict.lookup text_dec j (m ++ (k, v) ∷ []) ≡ none
unfolding Dict.lookup
lookup-snoc j k v [] h n = ground arith
lookup-snoc j k v ((i, w) ∷ m) h n = ground (arith, lookup-snoc j k v m)

snoc-absent :
    {V : Type 0} (k : Text) (v : V) (m : Dict Text V) (entries : List (Text × V))
    → Dict.lookup text_dec k entries ≡ none
    → All (λ e. Dict.lookup text_dec e.0 m ≡ none) entries
    → All (λ e. Dict.lookup text_dec e.0 (m ++ (k, v) ∷ []) ≡ none) entries
unfolding Dict.lookup
snoc-absent k v m [] h a = tt
snoc-absent k v m ((j, w) ∷ entries) h a = (
  lookup-snoc j k v m a.0 (ground (arith, same_iff k j, same_iff j k)),
  snoc-absent k v m entries (ground arith) a.1,
)

rekey_onto-append :
    {V : Type 0} (rekey : Rekey) (g : Text → Text) (entries : List (Text × V)) (out : Dict Text V)
    → All (λ e. rekey e.0 ≡ some (g e.0)) entries
    → IsUnique (map_keys g entries)
    → All (λ e. Dict.lookup text_dec e.0 out ≡ none) (map_keys g entries)
    → rekey_onto rekey entries out ≡ some (out ++ map_keys g entries)
unfolding rekey_onto
rekey_onto-append rekey g [] out r u a = ap some (sym (append-nil out))
rekey_onto-append rekey g ((k, v) ∷ entries) out r u a =
    rw (r.0, rekey_onto, insert-absent (g k) v out a.0)
      (rekey_onto-append rekey g entries (out ++ (g k, v) ∷ []) r.1 u.1
          (snoc-absent (g k) v out (map_keys g entries) u.0 a.1)
        ∙ ap some (append_assoc out ((g k, v) ∷ []) (map_keys g entries)))

absent_everywhere :
    {V : Type 0} (entries : List (Text × V))
    → All (λ e. Dict.lookup {V = V} text_dec e.0 [] ≡ none) entries
unfolding Dict.lookup
absent_everywhere [] = tt
absent_everywhere (e ∷ entries) = (refl, absent_everywhere entries)

append-cancel : (p a b : Text) → p ++ a ≡ p ++ b → a ≡ b
append-cancel [] a b h = h
append-cancel (c ∷ p) a b h = append-cancel p a b (ground arith)

same-append : (p a b : Text) → same (p ++ a) (p ++ b) ≡ same a b
same-append p a b =
    ground (arith, same_iff (p ++ a) (p ++ b), same_iff a b, append-cancel p a b, ap (λ t. p ++ t))

lookup-prefixed :
    {V : Type 0} (p k : Text) (m : List (Text × V))
    → Dict.lookup text_dec (p ++ k) (map_keys (λ t. p ++ t) m) ≡ Dict.lookup text_dec k m
unfolding Dict.lookup
lookup-prefixed p k [] = refl
lookup-prefixed p k ((j, v) ∷ m) = ground (arith, lookup-prefixed p k m, same-append p j k)

prefixed-IsUnique :
    {V : Type 0} (p : Text) (m : List (Text × V)) → IsUnique m → IsUnique (map_keys (λ t. p ++ t) m)
prefixed-IsUnique p [] u = tt
prefixed-IsUnique p ((j, v) ∷ m) u = (lookup-prefixed p j m ∙ u.0, prefixed-IsUnique p m u.1)

adds_each :
    {V : Type 0} (root : Text) (m : List (Text × V))
    → All (λ e. add_root root e.0 ≡ some (slash root ++ e.0)) m
adds_each root [] = tt
adds_each root (e ∷ m) = (refl, adds_each root m)

strips_each :
    {V : Type 0} (root : Text) (m : List (Text × V))
    → All
        (λ e. strip_root root e.0 ≡ some (drop (length root + 1) e.0))
        (map_keys (λ t. slash root ++ t) m)
strips_each root [] = tt
strips_each root ((k, v) ∷ m) = (rw (starts_with-append (slash root) k) refl, strips_each root m)

drop-slash : (root path : Text) → drop (length root + 1) (slash root ++ path) ≡ path
drop-slash root path =
    ap (λ n. drop n (slash root ++ path)) (sym (length-slash root))
    ∙ drop-length_append (slash root) path

strip-prefixed :
    {V : Type 0} (root : Text) (m : List (Text × V))
    → map_keys (drop (length root + 1)) (map_keys (λ t. slash root ++ t) m) ≡ m
strip-prefixed root [] = refl
strip-prefixed root ((k, v) ∷ m) =
    ap₂ (λ t n. (t, v) ∷ n) (drop-slash root k) (strip-prefixed root m)

rekey-add :
    {V : Type 0} (root : Text) (m : List (Text × V))
    → IsUnique m
    → rekey_record (add_root root) m ≡ some (map_keys (λ t. slash root ++ t) m)
rekey-add root m u =
    rekey_onto-append (add_root root) (λ t. slash root ++ t) m [] (adds_each root m)
      (prefixed-IsUnique (slash root) m u) (absent_everywhere (map_keys (λ t. slash root ++ t) m))

rekey-strip :
    {V : Type 0} (root : Text) (m : List (Text × V))
    → IsUnique m
    → rekey_record (strip_root root) (map_keys (λ t. slash root ++ t) m) ≡ some m
rekey-strip root m u =
    rekey_onto-append (strip_root root) (drop (length root + 1)) (map_keys (λ t. slash root ++ t) m)
      [] (strips_each root m) (subst IsUnique (sym (strip-prefixed root m)) u)
      (absent_everywhere (map_keys (drop (length root + 1)) (map_keys (λ t. slash root ++ t) m)))
    ∙ ap some (strip-prefixed root m)

rekey_all-add :
    (root : Text) (paths : List Text)
    → rekey_all (add_root root) paths ≡ some (map (λ p. slash root ++ p) paths)
rekey_all-add root [] = refl
rekey_all-add root (p ∷ paths) = rw (rekey_all-add root paths) refl

rekey_all-strip :
    (root : Text) (paths : List Text)
    → rekey_all (strip_root root) (map (λ p. slash root ++ p) paths) ≡ some paths
rekey_all-strip root [] = refl
rekey_all-strip root (p ∷ paths) = rw (strip-add root p, rekey_all-strip root paths) refl

-- What `manifestToVault` gives below a root.
abbrev below : Text → Manifest → Manifest
below root m = record m {
  files = map_keys (λ t. slash root ++ t) m.files;
  folders = elim m.folders [ none ↦ none | some l ↦ some (map (λ p. slash root ++ p) l) ];
}

rekey_folders-add :
    (root : Text) (folders : Option (List Text))
    → rekey_folders (add_root root) folders
      ≡ some (elim folders [ none ↦ none | some l ↦ some (map (λ p. slash root ++ p) l) ])
rekey_folders-add root none = refl
rekey_folders-add root (some l) = rw (rekey_all-add root l) refl

rekey_folders-strip :
    (root : Text) (folders : Option (List Text))
    → rekey_folders
        (strip_root root)
        (elim folders [ none ↦ none | some l ↦ some (map (λ p. slash root ++ p) l) ])
      ≡ some folders
rekey_folders-strip root none = refl
rekey_folders-strip root (some l) = rw (rekey_all-strip root l) refl

rekey_manifest-add :
    (m : Manifest) (root : Text)
    → IsUnique m.files
    → rekey_manifest m (add_root root) ≡ some (below root m)
rekey_manifest-add m root u = rw (rekey-add root m.files u, rekey_folders-add root m.folders) refl

rekey_manifest-strip :
    (m : Manifest) (root : Text)
    → IsUnique m.files
    → rekey_manifest (below root m) (strip_root root) ≡ some m
rekey_manifest-strip m root u =
    rw (rekey-strip root m.files u, rekey_folders-strip root m.folders) refl

-- A manifest whose paths each stand once, moved into the vault at a root, is the same manifest again when it is moved back out of that root, and neither move throws.
pub manifest_to_vault-to_space :
    (m : Manifest) (root : Text)
    → IsUnique m.files
    → (manifest_to_vault m root >>= λ v. manifest_to_space v root) ≡ some m
unfolding manifest_to_vault manifest_to_space
manifest_to_vault-to_space m root u = elim (Bool-cases (length root == 0)) [
  | inl e ↦ rw (manifest_to_vault, e) refl
  | inr e ↦ rw (manifest_to_vault, e, rekey_manifest-add m root u) (rekey_manifest-strip m root u)
]
