-- ===== src/Live/Session/Histories.antt =====
-- Every edit of a session's history is acknowledged or held, whatever the history.
use obsync.Base.{
  ℕ, ◌≡◌, refl, sym, ap, Bool, true, false, ◌||◌, Option, none, some, List, [], ◌∷◌, arith, subst,
  Bytes, ◌==◌, any, length, inr,
}
use obsync.Live.Outbox.{Outbox, Drain, Merge, is_idle, ack_timed_out, new_outbox, updates}
use obsync.Base.Dict.{Dict}
use obsync.Live.Outbox.Held.{is_held, has_some, IsMerging, any-append}
use obsync.Live.Outbox.Kept.{Inv}
use obsync.Live.Session.{Session, is_settled, on_moved}
use obsync.Live.Session.Steps.{Event, step, edits_of, acked_of, History, run, start, some_list}
use obsync.Live.Session.Kept.{
  holds, SessionInv, Moves, SameOutbox-Moves, resend_step-Moves, ship_step-Moves, on_echo-Moves,
}
use obsync.Live.Session.Lossless.{
  drain_session-Moves, on_local_update-Moves, stage_drain-Moves, on_flush-Moves, finish-Moves,
  dispose-Moves, on_reconciled-Moves, on_state_unsealed-Moves, on_fanout_applied-SameOutbox,
  on_connection_change-SameOutbox, on_state-SameOutbox, on_seed_sealed-SameOutbox,
  on_content_sealed-SameOutbox, send_sealed-SameOutbox, on_refused-SameOutbox, outbox-Moves,
}

any-some_list : (has : Bytes → Bool) (o : Option Bytes) → any has (some_list o) ≡ has_some has o
any-some_list has none = refl
any-some_list has (some u) = ground arith

any-empty : {A : Type 0} (p : A → Bool) (xs : List A) → (length xs == 0) ≡ true → any p xs ≡ false
any-empty p [] h = refl
any-empty p (x ∷ xs) h = ground arith

updates-empty :
    (has : Bytes → Bool) (m : Dict ℕ Bytes) → (length m == 0) ≡ true → any has (updates m) ≡ false
updates-empty has [] h = refl
updates-empty has (e ∷ m) h = ground arith

is_idle-held : (has : Bytes → Bool) (o : Outbox) → is_idle o ≡ true → is_held has o ≡ false
unfolding is_held
is_idle-held has o h = ground (arith, any-empty has o.pending, updates-empty has o.unacked)

timed_out : (has : Bytes → Bool) (o : Outbox) → is_held has o ≡ is_held has (ack_timed_out o).1
unfolding is_held ack_timed_out
timed_out has o = refl

module _ (drain : Drain) (merge : Merge) (has : Bytes → Bool) (law : IsMerging merge has) where
  step-Moves :
      (e : Event) (s : Session)
      → SessionInv s
      → Moves has s
          (step drain merge e s).1
          (any has (edits_of drain merge e s))
          (has_some has (acked_of drain merge e s))
  unfolding step on_moved ack_timed_out
  step-Moves (Event.edited u) s i = on_local_update-Moves has u s i
  step-Moves (Event.staged d) s i = stage_drain-Moves has d s i
  step-Moves Event.drains s i = drain_session-Moves has drain s i
  step-Moves Event.flushes s i = on_flush-Moves has drain s i
  step-Moves (Event.ships leads) s i = ship_step-Moves has merge law leads s i
  step-Moves Event.times_out s i =
      outbox-Moves has s (ack_timed_out s.outbox).1
        (record { ascending = i.ordered.ascending; given_out = i.ordered.given_out })
        (timed_out has s.outbox) i
  step-Moves Event.resends s i = resend_step-Moves has merge law s i
  step-Moves (Event.update_sealed n u) s i =
      SameOutbox-Moves has i (send_sealed-SameOutbox has n u s)
  step-Moves (Event.echoed leads seq n) s i = on_echo-Moves has merge law leads seq n s i
  step-Moves (Event.state_came frame) s i = SameOutbox-Moves has i (on_state-SameOutbox has frame s)
  step-Moves (Event.state_unsealed leads epoch readable frame) s i =
      on_state_unsealed-Moves has merge leads epoch readable frame s law i
  step-Moves (Event.reconciled leads epoch) s i = on_reconciled-Moves has merge leads epoch s law i
  step-Moves (Event.seed_sealed epoch seed) s i =
      SameOutbox-Moves has i (on_seed_sealed-SameOutbox has epoch seed s)
  step-Moves (Event.content_sealed epoch frame) s i =
      SameOutbox-Moves has i (on_content_sealed-SameOutbox has epoch frame s)
  step-Moves (Event.fanout_applied leads epoch applied seq) s i =
      SameOutbox-Moves has i (on_fanout_applied-SameOutbox has leads epoch applied seq s)
  step-Moves (Event.connection_changed connected) s i =
      SameOutbox-Moves has i (on_connection_change-SameOutbox has connected s)
  step-Moves (Event.moved target) s i =
      SameOutbox-Moves has i (record { outbox_same = refl; rest_same = refl; disposed_same = refl })
  step-Moves Event.refused s i = SameOutbox-Moves has i (on_refused-SameOutbox has s)
  step-Moves Event.disposes s i = dispose-Moves has drain merge s law i
  step-Moves Event.finishes s i = finish-Moves has s i

  -- What a history edited is acknowledged in it or held at its end.
  IsAccounted : History → Type 0
  IsAccounted h =
      SessionInv h.session × (any has h.edits ≡ (any has h.acked || holds has h.session))

  run-IsAccounted :
      (events : List Event) (h : History) → IsAccounted h → IsAccounted (run drain merge events h)
  unfolding IsAccounted run
  run-IsAccounted [] h a = a
  run-IsAccounted (e ∷ events) h a =
      let m = step-Moves e h.session a.0 in
      run-IsAccounted events _ (
        m.inv,
        ground (
          arith,
          a.1,
          m.kept,
          any-append has h.edits (edits_of drain merge e h.session),
          any-append has h.acked (some_list (acked_of drain merge e h.session)),
          any-some_list has (acked_of drain merge e h.session),
        ),
      )

  fresh : {s : Session} → s.outbox ≡ new_outbox → s.rest ≡ none → SessionInv s
  fresh e r = record {
    ordered = subst Inv (sym e) (record { ascending = tt; given_out = tt });
    unshipped = inr r;
  }

  start-IsAccounted : (known_seq : ℕ) (connected : Bool) → IsAccounted (start known_seq connected)
  unfolding IsAccounted is_held
  start-IsAccounted known_seq true = (fresh refl refl, refl)
  start-IsAccounted known_seq false = (fresh refl refl, refl)

  idle-holds : (s : Session) → SessionInv s → is_settled s ≡ true → holds has s ≡ false
  idle-holds s i h = ground (arith, is_idle-held has s.outbox, i.unshipped, ap (has_some has))

  -- No edit is lost: in any history of a session, the content of what was edited here is the content of what an echo acknowledged together with that of what is still pending, unacknowledged or left for the closing step, when a merge of updates has the content of its parts.
  pub run_accounts :
      (events : List Event) (known_seq : ℕ) (connected : Bool)
      → let h = run drain merge events (start known_seq connected) in
        any has h.edits ≡ (any has h.acked || holds has h.session)
  unfolding IsAccounted
  run_accounts events known_seq connected =
      (run-IsAccounted events (start known_seq connected) (start-IsAccounted known_seq connected)).1

  -- A session that is settled has every edit of its history acknowledged: all content that was edited here is content of an update whose echo came, when a merge of updates has the content of its parts.
  pub settled_is_acked :
      (events : List Event) (known_seq : ℕ) (connected : Bool)
      → is_settled (run drain merge events (start known_seq connected)).session ≡ true
      → any has (run drain merge events (start known_seq connected)).edits
        ≡ any has (run drain merge events (start known_seq connected)).acked
  unfolding IsAccounted
  settled_is_acked events known_seq connected h =
      let a =
        run-IsAccounted events (start known_seq connected)
          (start-IsAccounted known_seq connected) in
      ground
        (arith, a.1, idle-holds (run drain merge events (start known_seq connected)).session a.0 h)
