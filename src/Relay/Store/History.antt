-- ===== src/Relay/Store/History.antt =====
-- Any history of calls of the store, against its specification.
use obsync.Base.{ℕ, ◌≡◌, refl, ap, ap₂, Bool, Option, some, List, [], ◌∷◌, Text, Bytes}
use obsync.Relay.Store
use obsync.Relay.Store.{
  Pointer, Store, new_store, cache_key, pointer_of, put, moved_cache_max, is_null,
}
use obsync.Relay.Store.Spec
use obsync.Relay.Store.Spec.{Spec, new_spec}
use obsync.Relay.Store.Tracking.{
  Tracks, new-Tracks, moved_to-Tracks, append-Tracks, seed-Tracks, compact-Tracks, purge-Tracks,
  rotate-Tracks,
}

-- A method with its arguments, and the name that SQLite would draw.
pub data Call : Type 0 where
  moves : Text → Text → Call
  purges : Text → Call
  rotates : Text → Text → Pointer → ℕ → Bytes → Text → Call
  appends : Text → Text → Bytes → Text → Call
  seeds : Text → Text → Bytes → Text → Call
  compacts : Text → Text → Bytes → ℕ → Call

pub data Answer : Type 0 where
  pointer : Option Pointer → Answer
  flag : Bool → Answer
  seq : Option ℕ → Answer
  nothing : Answer

abbrev pub call : Call → Store → Answer × Store
call (moves c d) s = let (p, s') = Store.moved_to c d s in (pointer p, s')
call (purges c) s = (nothing, Store.purge c s)
call (rotates c d p upto payload drawn) s =
    let (done, s') = Store.rotate c d p upto payload drawn s in (flag done, s')
call (appends c d payload drawn) s =
    let (n, s') = Store.append c d payload drawn s in (seq (some n), s')
call (seeds c d payload drawn) s = let (n, s') = Store.seed c d payload drawn s in (seq n, s')
call (compacts c d payload upto) s = (nothing, Store.compact c d payload upto s)

abbrev pub spec_call : Call → Spec → Answer × Spec
spec_call (moves c d) a = (pointer (a.pointers c d), a)
spec_call (purges c) a = (nothing, Spec.purge c a)
spec_call (rotates c d p upto payload drawn) a =
    let (done, a') = Spec.rotate c d p upto payload a in (flag done, a')
spec_call (appends c d payload drawn) a =
    let (n, a') = Spec.append c d payload a in (seq (some n), a')
spec_call (seeds c d payload drawn) a = let (n, a') = Spec.seed c d payload a in (seq n, a')
spec_call (compacts c d payload upto) a = (nothing, a)

-- What each call of a history answers, and what is left.
unfoldable pub run : List Call → Store → List Answer × Store
run [] s = ([], s)
run (x ∷ xs) s = let (y, s') = call x s in let (ys, t) = run xs s' in (y ∷ ys, t)

unfoldable pub spec_run : List Call → Spec → List Answer × Spec
spec_run [] a = ([], a)
spec_run (x ∷ xs) a = let (y, a') = spec_call x a in let (ys, b) = spec_run xs a' in (y ∷ ys, b)

pub call-Tracks :
    (x : Call) (s : Store) (a : Spec)
    → Tracks s a
    → ((call x s).0 ≡ (spec_call x a).0) × Tracks (call x s).1 (spec_call x a).1
call-Tracks (moves c d) s a h =
    let (answer, kept) = moved_to-Tracks c d s a h in (ap pointer answer, kept)
call-Tracks (purges c) s a h = (refl, purge-Tracks c s a h)
call-Tracks (rotates c d p upto payload drawn) s a h =
    let (answer, kept) = rotate-Tracks c d p upto payload drawn s a h in (ap flag answer, kept)
call-Tracks (appends c d payload drawn) s a h =
    let (answer, kept) = append-Tracks c d payload drawn s a h in
    (ap (λ n. seq (some n)) answer, kept)
call-Tracks (seeds c d payload drawn) s a h =
    let (answer, kept) = seed-Tracks c d payload drawn s a h in (ap seq answer, kept)
call-Tracks (compacts c d payload upto) s a h = (refl, compact-Tracks c d payload upto s a h)

run-Tracks_from :
    (xs : List Call) (s : Store) (a : Spec)
    → Tracks s a
    → ((run xs s).0 ≡ (spec_run xs a).0) × Tracks (run xs s).1 (spec_run xs a).1
unfolding run spec_run
run-Tracks_from [] s a h = (refl, h)
run-Tracks_from (x ∷ xs) s a h =
    let (answer, kept) = call-Tracks x s a h in
    let (answers, left) = run-Tracks_from xs (call x s).1 (spec_call x a).1 kept in
    (ap₂ ◌∷◌ answer answers, left)

-- From the empty store, any history of calls is answered as the specification answers it, and
-- leaves a store that holds the specification's logs and pointers, with a cache that agrees with
-- the table and keeps to its size.
pub run-Tracks :
    (xs : List Call)
    → ((run xs new_store).0 ≡ (spec_run xs new_spec).0)
      × Tracks (run xs new_store).1 (spec_run xs new_spec).1
run-Tracks xs = run-Tracks_from xs new_store new_spec new-Tracks
