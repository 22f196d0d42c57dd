-- ===== src/Live/Session/Lossless.antt =====
-- What each handler of a session does to what it holds.
use obsync.Base.{
  ℕ, ◌≡◌, refl, sym, Bool, true, false, not, ◌||◌, none, List, [], ◌∷◌, arith, Bytes, ◌==◌,
  if◌then◌else◌, any, inl, inr,
}
use obsync.Relay.Store.{DocState}
use obsync.Live.Outbox.{
  Outbox, Drain, Merge, drain_staged, drain_all, add_all, stage_all, add_pending, stage, flush,
  take_pending, stop_timer,
}
use obsync.Live.Outbox.Held.{
  is_held, IsMerging, is_held-add_pending, drained, is_held-drain_all, is_held-take_pending,
}
use obsync.Live.Outbox.Kept.{Inv}
use obsync.Live.Session.{
  Session, Result, send_sealed, on_local_update, stage_drain, settle, on_refused,
  on_connection_change,
}
use obsync.Live.Session.Steps.{
  on_state, on_state_unsealed, on_reconciled, on_seed_sealed, on_content_sealed, on_fanout_applied,
  drain_of, drain_session, dispose, dispose_now, after_state, join, finish, on_flush,
}
use obsync.Live.Session.Kept.{
  SessionInv, SameOutbox, Moves, SameOutbox-Moves, Moves-trans, settle-Moves, if-Moves, unmoved,
  go_online-Moves, send_if-Moves,
}
use obsync.Live.RoomLog.{reached}

-- The outbox is in order however drains fill it.
add_all-Inv : (us : List Bytes) (o : Outbox) → Inv o → Inv (add_all us o)
unfolding add_pending
add_all-Inv [] o i = i
add_all-Inv (u ∷ us) o i =
    add_all-Inv us (add_pending u o) (record { ascending = i.ascending; given_out = i.given_out })

stage_all-Inv : (ds : List ℕ) (o : Outbox) → Inv o → Inv (stage_all ds o)
unfolding stage
stage_all-Inv [] o i = i
stage_all-Inv (d ∷ ds) o i =
    stage_all-Inv ds (stage d o) (record { ascending = i.ascending; given_out = i.given_out })

drain_all-Inv : (drain : Drain) (ds : List ℕ) (o : Outbox) → Inv o → Inv (drain_all drain ds o)
unfolding drain_all
drain_all-Inv drain [] o i = i
drain_all-Inv drain (d ∷ ds) o i = drain_all-Inv drain ds _ (
    stage_all-Inv (drain d).1 _
      (add_all-Inv (drain d).0 _ (record { ascending = i.ascending; given_out = i.given_out })))

module _ (has : Bytes → Bool) where
  pub drain_session-Moves :
      (drain : Drain) (s : Session)
      → SessionInv s
      → Moves has s
          (drain_session drain s)
          (any has (drained (drain_of drain s) s.outbox.staged))
          false
  unfolding drain_session
  drain_session-Moves drain s i = record {
    inv = record {
      ordered = drain_all-Inv (drain_of drain s) s.outbox.staged s.outbox i.ordered;
      unshipped = i.unshipped;
    };
    kept = ground (arith, is_held-drain_all has (drain_of drain s) s.outbox.staged s.outbox);
  }

  pub outbox-Moves :
      (s : Session) (o : Outbox) {e : Bool}
      → Inv o
      → (e || is_held has s.outbox) ≡ is_held has o
      → SessionInv s
      → Moves has s (record s { outbox = o }) e false
  outbox-Moves s o w h i = record {
    inv = record { ordered = w; unshipped = i.unshipped };
    kept = ground (arith, h);
  }

  guarded_Moves :
      {s t : Session} (b : Bool) (us : List Bytes)
      → SessionInv s
      → Moves has s t (any has us) false
      → Moves has s (if b then s else t) (any has (if b then [] else us)) false
  guarded_Moves true us i m = unmoved has _ i
  guarded_Moves false us i m = m

  guarded_plain :
      {s t : Session} (b : Bool)
      → SessionInv s
      → Moves has s t false false
      → Moves has s (if b then s else t) false false
  guarded_plain true i m = unmoved has _ i
  guarded_plain false i m = m

  guarded_result :
      {s : Session} (b : Bool) (r : Result) (us : List Bytes)
      → SessionInv s
      → (b ≡ false → Moves has s r.1 (any has us) false)
      → Moves has s (if b then ([], s) else r).1 (any has (if b then [] else us)) false
  guarded_result true r us i m = unmoved has _ i
  guarded_result false r us i m = m refl

  pub on_local_update-Moves :
      (u : Bytes) (s : Session)
      → SessionInv s
      → Moves has s (on_local_update u s) (any has (if s.disposed then [] else u ∷ [])) false
  unfolding on_local_update
  on_local_update-Moves u s i = guarded_Moves s.disposed (u ∷ []) i (
      outbox-Moves s (add_pending u s.outbox) (add_all-Inv (u ∷ []) s.outbox i.ordered)
        (ground (arith, is_held-add_pending has u s.outbox)) i)

  stage-held : (d : ℕ) (o : Outbox) → is_held has (stage d o) ≡ is_held has o
  unfolding is_held stage
  stage-held d o = refl

  pub stage_drain-Moves :
      (d : ℕ) (s : Session) → SessionInv s → Moves has s (stage_drain d s) false false
  stage_drain-Moves d s i = guarded_plain s.disposed i (
      outbox-Moves s (stage d s.outbox) (stage_all-Inv (d ∷ []) s.outbox i.ordered)
        (sym (stage-held d s.outbox)) i)

  flush-Inv : (drain : Drain) (o : Outbox) → Inv o → Inv (flush drain o).1
  unfolding flush
  flush-Inv drain o i =
      let j = drain_all-Inv drain o.staged o i in ground (arith, j.ascending, j.given_out)

  flush-held :
      (drain : Drain) (o : Outbox)
      → (any has (drained drain o.staged) || is_held has o) ≡ is_held has (flush drain o).1
  unfolding flush is_held
  flush-held drain o = ground (arith, is_held-drain_all has drain o.staged o)

  pub on_flush-Moves :
      (drain : Drain) (s : Session)
      → SessionInv s
      → Moves has s
          (on_flush drain s)
          (any has (if s.disposed then [] else drained drain s.outbox.staged))
          false
  unfolding on_flush
  on_flush-Moves drain s i = guarded_Moves s.disposed (drained drain s.outbox.staged) i (
      outbox-Moves s (flush drain s.outbox).1 (flush-Inv drain s.outbox i.ordered)
        (flush-held drain s.outbox) i)

  pub finish-Moves : (s : Session) → SessionInv s → Moves has s (finish s).1 false false
  unfolding finish
  finish-Moves s i =
      let m =
        send_if-Moves has s.rest (record s { rest = none })
          (record { ordered = i.ordered; unshipped = inr refl }) in
      record { inv = m.inv; kept = ground (arith, m.kept) }

  dispose_now-Moves :
      (drain : Drain) (merge : Merge) (s : Session)
      → IsMerging merge has
      → SessionInv s
      → s.disposed ≡ false
      → Moves has s
          (dispose_now drain merge s).1
          (any has (drained (drain_of drain s) s.outbox.staged))
          false
  unfolding dispose_now drain_session take_pending stop_timer is_held
  dispose_now-Moves drain merge s law i e =
      let o = drain_staged (drain_of drain s) s.outbox in
      let j = drain_all-Inv (drain_of drain s) s.outbox.staged s.outbox i.ordered in
      record {
        inv = record {
          ordered = record { ascending = j.ascending; given_out = j.given_out };
          unshipped = inl refl;
        };
        kept = ground (
          arith,
          i.unshipped,
          is_held-drain_all has (drain_of drain s) s.outbox.staged s.outbox,
          is_held-take_pending merge has o law,
        );
      }

  pub dispose-Moves :
      (drain : Drain) (merge : Merge) (s : Session)
      → IsMerging merge has
      → SessionInv s
      → Moves has s
          (dispose drain merge s).1
          (any has (if s.disposed then [] else drained (drain_of drain s) s.outbox.staged))
          false
  unfolding dispose
  dispose-Moves drain merge s law i =
      guarded_result s.disposed (dispose_now drain merge s)
        (drained (drain_of drain s) s.outbox.staged) i (dispose_now-Moves drain merge s law i)

  after_state-Moves :
      (merge : Merge) (leads : Bool) (s t : Session)
      → IsMerging merge has
      → SessionInv s
      → SameOutbox s t
      → Moves has s (after_state merge leads t).1 false false
  unfolding after_state
  after_state-Moves merge leads s t law i e =
      let m = SameOutbox-Moves has i e in
      Moves-trans has m (
        settle-Moves has leads t _
          (if-Moves has t.online _ _ (unmoved has t m.inv) (go_online-Moves has merge law t m.inv)))

  pub on_reconciled-Moves :
      (merge : Merge) (leads : Bool) (epoch : ℕ) (s : Session)
      → IsMerging merge has
      → SessionInv s
      → Moves has s (on_reconciled merge leads epoch s).1 false false
  unfolding on_reconciled
  on_reconciled-Moves merge leads epoch s law i =
      let e : SameOutbox s (record s { has_joined = true }) = record {
        outbox_same = refl;
        rest_same = refl;
        disposed_same = refl;
      } in
      if-Moves has (not (epoch == s.epoch) || s.disposed) _ _ (SameOutbox-Moves has i e)
        (after_state-Moves merge leads s _ law i e)

  pub on_refused-SameOutbox : (s : Session) → SameOutbox s (on_refused s).1
  unfolding on_refused
  on_refused-SameOutbox s = record { outbox_same = refl; rest_same = refl; disposed_same = refl }

  join-SameOutbox : (frame : DocState) (s : Session) → SameOutbox s (join frame s).1
  join-SameOutbox frame s = ground arith

  pub on_state_unsealed-Moves :
      (merge : Merge) (leads : Bool) (epoch : ℕ) (readable : Bool) (frame : DocState) (s : Session)
      → IsMerging merge has
      → SessionInv s
      → Moves has s (on_state_unsealed merge leads epoch readable frame s).1 false false
  unfolding on_state_unsealed
  on_state_unsealed-Moves merge leads epoch readable frame s law i =
      let t : Session = record s { log = reached frame s.log } in
      let e : SameOutbox s t = record {
        outbox_same = refl;
        rest_same = refl;
        disposed_same = refl;
      } in
      let m = SameOutbox-Moves has i e in
      if-Moves has (not (epoch == s.epoch) || s.disposed) _ _ (unmoved has s i) (
        if-Moves has (not readable) _ _ (SameOutbox-Moves has i (on_refused-SameOutbox s)) (
          if-Moves has (not s.has_joined) _ _
            (Moves-trans has m (SameOutbox-Moves has m.inv (join-SameOutbox frame t)))
            (after_state-Moves merge leads s t law i e)))

  pub on_fanout_applied-SameOutbox :
      (leads : Bool) (epoch : ℕ) (applied : Bool) (seq : ℕ) (s : Session)
      → SameOutbox s (on_fanout_applied leads epoch applied seq s).1
  unfolding on_fanout_applied on_refused settle
  on_fanout_applied-SameOutbox leads epoch applied seq s = ground arith

  pub on_connection_change-SameOutbox :
      (connected : Bool) (s : Session) → SameOutbox s (on_connection_change connected s).1
  unfolding on_connection_change
  on_connection_change-SameOutbox connected s = ground arith

  pub on_state-SameOutbox : (frame : DocState) (s : Session) → SameOutbox s (on_state frame s)
  unfolding on_state
  on_state-SameOutbox frame s = ground arith

  pub on_seed_sealed-SameOutbox :
      (epoch : ℕ) (seed : Bytes) (s : Session) → SameOutbox s (on_seed_sealed epoch seed s).1
  unfolding on_seed_sealed
  on_seed_sealed-SameOutbox epoch seed s = ground arith

  pub on_content_sealed-SameOutbox :
      (epoch : ℕ) (frame : DocState) (s : Session) → SameOutbox s (on_content_sealed epoch frame s)
  unfolding on_content_sealed
  on_content_sealed-SameOutbox epoch frame s = ground arith

  pub send_sealed-SameOutbox :
      (n : ℕ) (u : Bytes) (s : Session) → SameOutbox s (send_sealed n u s).1
  unfolding send_sealed
  send_sealed-SameOutbox n u s = ground arith
