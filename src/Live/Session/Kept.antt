-- ===== src/Live/Session/Kept.antt =====
-- No edit is lost: until it is acknowledged, the session holds it.
use obsync.Base.{
  ℕ, ◌≡◌, refl, sym, ap, ◌∙◌, Bool, true, false, not, ◌&&◌, ◌||◌, Option, none, some, arith, ◌⊎◌,
  subst, Bytes, if◌then◌else◌,
}
use obsync.Live.Outbox.{Outbox, Merge, take_pending, take_unacked, ack}
use obsync.Live.Outbox.Held.{
  is_held, has_some, IsMerging, is_held-take_pending, is_held-take_unacked,
}
use obsync.Live.Outbox.Kept.{
  Inv, is_held-add_unacked, add_unacked-Inv, is_held-ack, ack-Inv, acked_by,
}
use obsync.Live.Session.{
  Session, Result, send_update, send_if, go_online, settle, on_echo, resend_dropped, seeded,
  with_seq,
}
use obsync.Live.Session.Steps.{ship_or_settle, ship_step, resend_step}

-- What waits to go out, `dispose`'s last update included.
abbrev pub holds : (Bytes → Bool) → Session → Bool
holds has s = is_held has s.outbox || has_some has s.rest

pub record SessionInv (s : Session) : Type 0 where
  pub ordered : Inv s.outbox
  pub unshipped : (s.disposed ≡ true) ⊎ (s.rest ≡ none)

-- A session with the same outbox.
pub record SameOutbox (s t : Session) : Type 0 where
  pub outbox_same : t.outbox ≡ s.outbox
  pub rest_same : t.rest ≡ s.rest
  pub disposed_same : t.disposed ≡ s.disposed

module _ (has : Bytes → Bool) where
  -- A step adds what is edited, and lets go of what is acknowledged.
  pub record Moves (s t : Session) (edited acked : Bool) : Type 0 where
    pub inv : SessionInv t
    pub kept : (edited || holds has s) ≡ (acked || holds has t)

  pub SameOutbox-Moves : {s t : Session} → SessionInv s → SameOutbox s t → Moves s t false false
  SameOutbox-Moves i e = record {
    inv = ground (arith, i.ordered, i.unshipped, ap Inv e.outbox_same);
    kept = ground (arith, e.outbox_same, e.rest_same);
  }

  pub Moves-trans :
      {s t u : Session} {e f a b : Bool}
      → Moves s t e a
      → Moves t u f b
      → Moves s u (e || f) (a || b)
  Moves-trans m n = record { inv = n.inv; kept = ground (arith, m.kept, n.kept) }

  -- A session that had taken `u` out, once it is unacknowledged again.
  send_update-Moves :
      (u : Bytes) (s : Session) → SessionInv s → Moves s (send_update u s).1 (has u) false
  unfolding send_update
  send_update-Moves u s i = record {
    inv = record { ordered = add_unacked-Inv u s.outbox i.ordered; unshipped = i.unshipped };
    kept = ground (arith, is_held-add_unacked has u s.outbox i.ordered);
  }

  pub send_if-Moves :
      (o : Option Bytes) (s : Session)
      → SessionInv s
      → Moves s (send_if o s).1 (has_some has o) false
  send_if-Moves none s i = record { inv = i; kept = refl }
  send_if-Moves (some u) s i = send_update-Moves u s i

  -- What is taken out of the outbox and sent again stays held.
  taken_Moves :
      (s : Session) (o : Outbox) (taken : Option Bytes) (acked : Bool) (t : Session)
      → Inv o
      → (t.outbox ≡ o) × ((t.rest ≡ s.rest) × (t.disposed ≡ s.disposed))
      → (acked || (has_some has taken || is_held has o)) ≡ is_held has s.outbox
      → SessionInv s
      → Moves s (send_if taken t).1 false acked
  taken_Moves s o taken acked t w e h i = record {
    inv = m.inv;
    kept = ground (arith, m.kept, h, ap (is_held has) e.0, e.1.0, ap (has_some has) e.1.0);
  }
    where
      m : Moves t (send_if taken t).1 (has_some has taken) false
      m =
          send_if-Moves taken t (record {
            ordered = subst Inv (sym e.0) w;
            unshipped = ground (arith, i.unshipped, e.1);
          })

  pub settle-SameOutbox : (leads : Bool) (s : Session) → SameOutbox s (settle leads s).1
  unfolding settle
  settle-SameOutbox leads s = ground arith

  pub settle-Moves :
      (leads : Bool) (s t : Session) {e a : Bool} → Moves s t e a → Moves s (settle leads t).1 e a
  settle-Moves leads s t m =
      let n = Moves-trans m (SameOutbox-Moves m.inv (settle-SameOutbox leads t)) in
      record { inv = n.inv; kept = ground (arith, n.kept) }

  pub if-Moves :
      {s : Session} (b : Bool) (x y : Result) {e a : Bool}
      → Moves s x.1 e a
      → Moves s y.1 e a
      → Moves s (if b then x else y).1 e a
  if-Moves true x y m n = m
  if-Moves false x y m n = n

  pub unmoved : (s : Session) → SessionInv s → Moves s s false false
  unmoved s i = record { inv = i; kept = refl }

  shipped_Moves :
      (leads : Bool) (taken : Option Bytes) (s t : Session)
      → SessionInv t
      → (has_some has taken || holds has t) ≡ holds has s
      → Moves s (ship_or_settle leads taken t).1 false false
  shipped_Moves leads none s t i h = settle-Moves leads s t (record { inv = i; kept = sym h })
  shipped_Moves leads (some u) s t i h =
      let m = send_update-Moves u t i in record { inv = m.inv; kept = sym h ∙ m.kept }

  module _ (merge : Merge) (law : IsMerging merge has) where
    pub go_online-Moves : (s : Session) → SessionInv s → Moves s (go_online merge s).1 false false
    unfolding go_online take_unacked
    go_online-Moves s i =
        taken_Moves s _ (take_unacked merge s.outbox).0 false _
          (record { ascending = tt; given_out = tt }) (refl, (refl, refl))
          (is_held-take_unacked merge has s.outbox law) i

    pub resend_step-Moves :
        (s : Session) → SessionInv s → Moves s (resend_step merge s).1 false false
    unfolding resend_step take_unacked
    resend_step-Moves s i = if-Moves (not (s.online && not s.disposed)) _ _ (unmoved s i) (
        taken_Moves s _ (take_unacked merge s.outbox).0 false _
          (record { ascending = tt; given_out = tt }) (refl, (refl, refl))
          (is_held-take_unacked merge has s.outbox law) i)

    pub ship_step-Moves :
        (leads : Bool) (s : Session)
        → SessionInv s
        → Moves s (ship_step merge leads s).1 false false
    unfolding ship_step take_pending
    ship_step-Moves leads s i =
        shipped_Moves leads (take_pending merge s.outbox).0 s
          (record s { outbox = (take_pending merge s.outbox).1 })
          (record {
            ordered = record { ascending = i.ordered.ascending; given_out = i.ordered.given_out };
            unshipped = i.unshipped;
          })
          (ground (arith, is_held-take_pending merge has s.outbox law))

    resend_dropped-Moves :
        (n : ℕ) (s : Session)
        → SessionInv s
        → Moves s (resend_dropped merge n s).1 false (has_some has (acked_by n s.outbox))
    resend_dropped-Moves n s i =
        taken_Moves s (ack merge n s.outbox).1 (ack merge n s.outbox).0
          (has_some has (acked_by n s.outbox)) _ (ack-Inv merge n s.outbox i.ordered)
          (refl, (refl, refl)) (is_held-ack merge has n s.outbox law i.ordered) i

    joined :
        (s : Session)
        → SessionInv s
        → Moves s (go_online merge (record s { seed = none; has_joined = true })).1 false false
    joined s i =
        let m =
          go_online-Moves (record s { seed = none; has_joined = true })
            (record { ordered = i.ordered; unshipped = i.unshipped }) in
        record { inv = m.inv; kept = m.kept }

    seeded-Moves :
        (seed : Option Bytes) (s : Session)
        → SessionInv s
        → Moves s (seeded merge seed s).1 false false
    seeded-Moves none s i = unmoved s i
    seeded-Moves (some b) s i = joined s i

    -- What an echo acknowledges.
    abbrev pub echoed_update : ℕ → Session → Option Bytes
    echoed_update n s = if s.has_joined then acked_by n s.outbox else none

    with_seq-SessionInv : (seq : ℕ) (s : Session) → SessionInv s → SessionInv (with_seq seq s)
    with_seq-SessionInv seq s i = record { ordered = i.ordered; unshipped = i.unshipped }

    echoed_Moves :
        {s : Session} (b : Bool) (x y : Result) (o : Option Bytes)
        → Moves s x.1 false (has_some has o)
        → Moves s y.1 false false
        → Moves s (if b then x else y).1 false (has_some has (if b then o else none))
    echoed_Moves true x y o m n = m
    echoed_Moves false x y o m n = n

    pub on_echo-Moves :
        (leads : Bool) (seq n : ℕ) (s : Session)
        → SessionInv s
        → Moves s (on_echo merge leads seq n s).1 false (has_some has (echoed_update n s))
    unfolding on_echo
    on_echo-Moves leads seq n s i =
        let i' = with_seq-SessionInv seq s i in
        let m = resend_dropped-Moves n (with_seq seq s) i' in
        let m' = seeded-Moves s.seed (with_seq seq s) i' in
        settle-Moves leads s _ (
          echoed_Moves s.has_joined _ _ (acked_by n s.outbox)
            (record { inv = m.inv; kept = m.kept }) (record { inv = m'.inv; kept = m'.kept }))
