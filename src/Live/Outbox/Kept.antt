-- ===== src/Live/Outbox/Kept.antt =====
-- What the outbox holds, and what each operation takes out of it.
use obsync.Base.{
  ℕ, ◌+◌, ◌≡◌, refl, sym, ap, Bool, ◌||◌, Option, some, [], ◌∷◌, ◌++◌, arith, ◌≤◌, ◌<◌, subst, All,
  All-append, Bytes, any, ℕ_discrete, inl, inr, Option-cases,
}
use obsync.Base.Dict
use obsync.Base.Dict.{Dict}
use obsync.Live.Outbox.{Outbox, Merge, add_unacked, take_before, ack, updates}
use obsync.Live.Outbox.Held.{is_held, has_some, IsMerging, has_some-take_merged}

-- The counters of the unacknowledged updates ascend from `low`.
abbrev pub AreAbove : ℕ → Dict ℕ Bytes → Type 0
AreAbove low [] = Unit
AreAbove low ((n, u) ∷ m) = (low < n) × AreAbove n m

abbrev pub AreUpTo : ℕ → Dict ℕ Bytes → Type 0
AreUpTo high m = All (λ e. e.0 ≤ high) m

-- Every counter in use was given out, in order.
pub record Inv (o : Outbox) : Type 0 where
  pub ascending : AreAbove 0 o.unacked
  pub given_out : AreUpTo o.sent o.unacked

AreUpTo-more : (a b : ℕ) (m : Dict ℕ Bytes) → a ≤ b → AreUpTo a m → AreUpTo b m
AreUpTo-more a b [] h u = tt
AreUpTo-more a b (e ∷ m) h u = (omega (arith, u.0, h), AreUpTo-more a b m h u.1)

insert-new :
    (n : ℕ) (u : Bytes) (m : Dict ℕ Bytes)
    → AreUpTo n m
    → Dict.insert ℕ_discrete (n + 1) u m ≡ m ++ (n + 1, u) ∷ []
unfolding Dict.insert
insert-new n u [] h = refl
insert-new n u ((k, v) ∷ m) h = ground (arith, insert-new n u m h.1)

snoc-AreAbove :
    (low n : ℕ) (u : Bytes) (m : Dict ℕ Bytes)
    → low ≤ n
    → AreUpTo n m
    → AreAbove low m
    → AreAbove low (m ++ (n + 1, u) ∷ [])
snoc-AreAbove low n u [] l h a = (omega (arith, l), tt)
snoc-AreAbove low n u ((k, v) ∷ m) l h a = (a.0, snoc-AreAbove k n u m h.0 h.1 a.1)

pub add_unacked-Inv : (u : Bytes) (o : Outbox) → Inv o → Inv (add_unacked u o).1
unfolding add_unacked
add_unacked-Inv u o i = record {
  ascending =
      subst (AreAbove 0) (sym (insert-new o.sent u o.unacked i.given_out))
        (snoc-AreAbove 0 o.sent u o.unacked (omega arith) i.given_out i.ascending);
  given_out = subst (AreUpTo (o.sent + 1)) (sym (insert-new o.sent u o.unacked i.given_out)) (
      All-append (λ e. e.0 ≤ o.sent + 1) o.unacked ((o.sent + 1, u) ∷ [])
        (AreUpTo-more o.sent (o.sent + 1) o.unacked (omega arith) i.given_out) (omega arith, tt));
}

any-updates_snoc :
    (has : Bytes → Bool) (n : ℕ) (u : Bytes) (m : Dict ℕ Bytes)
    → any has (updates (m ++ (n, u) ∷ [])) ≡ (any has (updates m) || has u)
any-updates_snoc has n u [] = ground arith
any-updates_snoc has n u ((k, v) ∷ m) = ground (arith, any-updates_snoc has n u m)

pub is_held-add_unacked :
    (has : Bytes → Bool) (u : Bytes) (o : Outbox)
    → Inv o
    → is_held has (add_unacked u o).1 ≡ (has u || is_held has o)
unfolding is_held add_unacked
is_held-add_unacked has u o i = ground (
  arith,
  ap (λ m. any has (updates m)) (insert-new o.sent u o.unacked i.given_out),
  any-updates_snoc has (o.sent + 1) u o.unacked,
)

erase-absent :
    (low k : ℕ) (m : Dict ℕ Bytes) → k ≤ low → AreAbove low m → Dict.erase ℕ_discrete k m ≡ m
unfolding Dict.erase
erase-absent low k [] l a = refl
erase-absent low k ((n, u) ∷ m) l a = ground (arith, erase-absent n k m)

any-erase :
    (has : Bytes → Bool) (low k : ℕ) (m : Dict ℕ Bytes) (v : Bytes)
    → AreAbove low m
    → Dict.lookup ℕ_discrete k m ≡ some v
    → (has v || any has (updates (Dict.erase ℕ_discrete k m))) ≡ any has (updates m)
unfolding Dict.erase Dict.lookup
any-erase has low k [] v a h = ground arith
any-erase has low k ((n, u) ∷ m) v a h =
    ground
      (arith, any-erase has n k m v a.1, erase-absent n k m, ap has, ap (λ t. any has (updates t)))

AreAbove-less : (a b : ℕ) (m : Dict ℕ Bytes) → a ≤ b → AreAbove b m → AreAbove a m
AreAbove-less a b [] l h = tt
AreAbove-less a b ((n, u) ∷ m) l h = (omega (arith, l, h.0), h.1)

erase-AreAbove :
    (low k : ℕ) (m : Dict ℕ Bytes) → AreAbove low m → AreAbove low (Dict.erase ℕ_discrete k m)
unfolding Dict.erase
erase-AreAbove low k [] a = tt
erase-AreAbove low k ((n, u) ∷ m) a =
    ground (arith, erase-AreAbove n k m a.1, AreAbove-less low n (Dict.erase ℕ_discrete k m))

erase-AreUpTo :
    (high k : ℕ) (m : Dict ℕ Bytes) → AreUpTo high m → AreUpTo high (Dict.erase ℕ_discrete k m)
unfolding Dict.erase
erase-AreUpTo high k [] a = tt
erase-AreUpTo high k ((n, u) ∷ m) a = ground (arith, erase-AreUpTo high k m a.1)

take_before-AreAbove :
    (low n : ℕ) (m : Dict ℕ Bytes) → AreAbove low m → AreAbove low (take_before n m).1
unfolding take_before
take_before-AreAbove low n [] a = tt
take_before-AreAbove low n ((k, u) ∷ m) a =
    ground (arith, take_before-AreAbove k n m a.1, AreAbove-less low k (take_before n m).1)

take_before-AreUpTo :
    (high n : ℕ) (m : Dict ℕ Bytes) → AreUpTo high m → AreUpTo high (take_before n m).1
unfolding take_before
take_before-AreUpTo high n [] a = tt
take_before-AreUpTo high n ((k, u) ∷ m) a = ground (arith, take_before-AreUpTo high n m a.1)

pub ack-Inv : (merge : Merge) (n : ℕ) (o : Outbox) → Inv o → Inv (ack merge n o).1
unfolding ack
ack-Inv merge n o i = elim (Option-cases (Dict.lookup ℕ_discrete n o.unacked)) [
  | inl e ↦ rw (e, ack) i
  | inr (v, e) ↦
      rw (e, ack)
        record {
          ascending =
              take_before-AreAbove 0 n (Dict.erase ℕ_discrete n o.unacked)
                (erase-AreAbove 0 n o.unacked i.ascending);
          given_out =
              take_before-AreUpTo o.sent n (Dict.erase ℕ_discrete n o.unacked)
                (erase-AreUpTo o.sent n o.unacked i.given_out);
        }
]

any-take_before :
    (has : Bytes → Bool) (n : ℕ) (m : Dict ℕ Bytes)
    → (any has (take_before n m).0 || any has (updates (take_before n m).1)) ≡ any has (updates m)
unfolding take_before
any-take_before has n [] = refl
any-take_before has n ((k, u) ∷ m) = ground (arith, any-take_before has n m)

-- The update that an echo acknowledges.
abbrev pub acked_by : ℕ → Outbox → Option Bytes
acked_by n o = Dict.lookup ℕ_discrete n o.unacked

pub is_held-ack :
    (merge : Merge) (has : Bytes → Bool) (n : ℕ) (o : Outbox)
    → IsMerging merge has
    → Inv o
    → (has_some has (acked_by n o)
        || (has_some has (ack merge n o).0 || is_held has (ack merge n o).1))
      ≡ is_held has o
unfolding ack is_held
is_held-ack merge has n o m i = elim (Option-cases (Dict.lookup ℕ_discrete n o.unacked)) [
  | inl e ↦ rw (e, ack) refl
  | inr (v, e) ↦
      rw (e, ack)
        (ground (
          arith,
          any-erase has 0 n o.unacked v i.ascending e,
          any-take_before has n (Dict.erase ℕ_discrete n o.unacked),
          has_some-take_merged merge has (take_before n (Dict.erase ℕ_discrete n o.unacked)).0 m,
        ))
]

take_before_later : (low n : ℕ) (m : Dict ℕ Bytes) → AreAbove low m → AreAbove n (take_before n m).1
unfolding take_before
take_before_later low n [] a = tt
take_before_later low n ((k, v) ∷ m) a = ground (arith, take_before_later k n m a.1)

-- What an echo leaves went out after it.
pub ack-AreAbove :
    (merge : Merge) (n : ℕ) (o : Outbox) (u : Bytes)
    → Inv o
    → acked_by n o ≡ some u
    → AreAbove n (ack merge n o).1.unacked
unfolding ack
ack-AreAbove merge n o u i e =
    rw (e, ack)
      (take_before_later 0 n (Dict.erase ℕ_discrete n o.unacked)
        (erase-AreAbove 0 n o.unacked i.ascending))
