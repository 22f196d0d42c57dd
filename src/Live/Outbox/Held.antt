-- ===== src/Live/Outbox/Held.antt =====
-- What an outbox holds, and what its operations on pending updates do to it.
use obsync.Base.{
  ℕ, ◌≡◌, refl, ◌∙◌, Bool, false, ◌||◌, Option, none, some, List, [], ◌∷◌, ◌++◌, arith, Bytes, any,
}
use obsync.Live.Outbox.{
  Outbox, Drain, Merge, add_pending, stage, add_all, stage_all, drain_all, take_merged,
  take_pending, updates, take_unacked,
}

-- Whether an update with some content waits or is unacknowledged; `has` is what the content is.
unfoldable pub is_held : (Bytes → Bool) → Outbox → Bool
is_held has o = any has o.pending || any has (updates o.unacked)

abbrev pub has_some : (Bytes → Bool) → Option Bytes → Bool
has_some has none = false
has_some has (some u) = has u

-- A merge has what its parts have.
abbrev pub IsMerging : Merge → (Bytes → Bool) → Type 0
IsMerging merge has = (u : Bytes) (us : List Bytes) → has (merge (u ∷ us)) ≡ any has (u ∷ us)

pub any-append {ℓ} :
    {A : Type ℓ} (p : A → Bool) (xs ys : List A) → any p (xs ++ ys) ≡ (any p xs || any p ys)
any-append p [] ys = refl
any-append p (x ∷ xs) ys = ground (arith, any-append p xs ys)

pub has_some-take_merged :
    (merge : Merge) (has : Bytes → Bool) (us : List Bytes)
    → IsMerging merge has
    → has_some has (take_merged merge us) ≡ any has us
unfolding take_merged
has_some-take_merged merge has [] m = refl
has_some-take_merged merge has (u ∷ us) m = m u us

pub is_held-add_pending :
    (has : Bytes → Bool) (u : Bytes) (o : Outbox)
    → is_held has (add_pending u o) ≡ (has u || is_held has o)
unfolding is_held add_pending
is_held-add_pending has u o = ground (arith, any-append has o.pending (u ∷ []))

is_held-add_all :
    (has : Bytes → Bool) (us : List Bytes) (o : Outbox)
    → is_held has (add_all us o) ≡ (any has us || is_held has o)
is_held-add_all has [] o = refl
is_held-add_all has (u ∷ us) o =
    is_held-add_all has us (add_pending u o) ∙ (rw (is_held-add_pending has u o) (ground arith))

is_held-stage_all :
    (has : Bytes → Bool) (ds : List ℕ) (o : Outbox) → is_held has (stage_all ds o) ≡ is_held has o
unfolding is_held stage
is_held-stage_all has [] o = refl
is_held-stage_all has (d ∷ ds) o = is_held-stage_all has ds (stage d o)

-- What the drains make the document report.
abbrev pub drained : Drain → List ℕ → List Bytes
drained drain [] = []
drained drain (d ∷ ds) = (drain d).0 ++ drained drain ds

pub is_held-drain_all :
    (has : Bytes → Bool) (drain : Drain) (ds : List ℕ) (o : Outbox)
    → is_held has (drain_all drain ds o) ≡ (any has (drained drain ds) || is_held has o)
unfolding drain_all is_held
is_held-drain_all has drain [] o = refl
is_held-drain_all has drain (d ∷ ds) o =
    is_held-drain_all has drain ds _
    ∙ (rw
        (
          is_held-stage_all has (drain d).1 (add_all (drain d).0 _),
          is_held-add_all has (drain d).0 _,
        )
        (ground (arith, any-append has (drain d).0 (drained drain ds))))

-- An update that is taken out is merged from all that waited.
pub is_held-take_pending :
    (merge : Merge) (has : Bytes → Bool) (o : Outbox)
    → IsMerging merge has
    → (has_some has (take_pending merge o).0 || is_held has (take_pending merge o).1)
      ≡ is_held has o
unfolding take_pending is_held
is_held-take_pending merge has o m = ground (arith, has_some-take_merged merge has o.pending m)

pub is_held-take_unacked :
    (merge : Merge) (has : Bytes → Bool) (o : Outbox)
    → IsMerging merge has
    → (has_some has (take_unacked merge o).0 || is_held has (take_unacked merge o).1)
      ≡ is_held has o
unfolding take_unacked is_held
is_held-take_unacked merge has o m =
    ground (arith, has_some-take_merged merge has (updates o.unacked) m)
