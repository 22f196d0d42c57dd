-- ===== src/Relay/Store/Spec.antt =====
-- What the store promises, without snapshots, sequence numbers or a cache: the updates of each
-- document in the order they were taken, and where it moved.
use obsync.Base.{
  ℕ, Bool, true, false, not, ◌||◌, Option, none, some, List, [], ◌∷◌, ◌++◌, Text, Bytes, text_dec,
  ite, length, ◌==◌, if◌then◌else◌,
}
use obsync.Relay.Store.{Pointer, Table, put, is_null}

-- `none` is a document that was never written.
pub record Spec : Type 0 where
  pub logs : Table (Option (List Bytes))
  pub pointers : Table (Option Pointer)

abbrev pub new_spec : Spec
new_spec = record { logs = λ c d. none; pointers = λ c d. none }

abbrev pub updates : Option (List Bytes) → List Bytes
updates none = []
updates (some us) = us

unfoldable pub append : Text → Text → Bytes → Spec → ℕ × Spec
append c d payload a =
    let us = updates (a.logs c d) ++ payload ∷ [] in
    (length us, record a { logs = put c d (some us) a.logs })

unfoldable pub seed : Text → Text → Bytes → Spec → Option ℕ × Spec
seed c d payload a = elim (a.logs c d) [
  | some us ↦ (none, a)
  | none ↦ (some 1, record a { logs = put c d (some (payload ∷ [])) a.logs })
]

-- A document that moved has its pointer and an empty log.
unfoldable pub mark_moved : Text → Text → Pointer → Spec → Spec
mark_moved c d p a = record {
  logs = put c d (some []) a.logs;
  pointers = put c d (some p) a.pointers;
}

unfoldable pub rotate : Text → Text → Pointer → ℕ → Bytes → Spec → Bool × Spec
rotate c d p upto payload a =
    if not (is_null (a.pointers c d)) || not (length (updates (a.logs c d)) == upto)
    then (false, a)
    else (let (seq, a') = seed c p.target payload a in
        if is_null seq then (false, a') else (true, mark_moved c d p a'))

unfoldable pub purge : Text → Spec → Spec
purge channel a = record {
  logs = λ c d. ite (text_dec channel c) none (a.logs c d);
  pointers = λ c d. ite (text_dec channel c) none (a.pointers c d);
}
