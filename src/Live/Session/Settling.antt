-- ===== src/Live/Session/Settling.antt =====
-- A session comes to rest once its resend is echoed; and it is online only where it has joined.
use obsync.Base.{
  ℕ, ◌+◌, ◌≡◌, refl, sym, ap, ◌∙◌, Bool, true, false, not, ◌&&◌, Option, none, some, [], arith,
  subst, Bytes, if◌then◌else◌, length, ℕ_discrete,
}
use obsync.Base.Dict
use obsync.Base.Dict.{Dict}
use obsync.Live.Outbox.{Outbox, Merge, Drain, is_idle, ack, take_before, take_unacked, add_unacked}
use obsync.Live.Session.{
  Session, is_settled, is_synced, send_update, send_if, settle, resend_dropped, with_seq, on_echo,
  seeded,
}
use obsync.Live.Session.Steps.{resend_step, Event, step}

-- With nothing staged or pending, an outbox whose unacknowledged updates went out again as one is idle after that one's echo.
ack_last :
    (merge : Merge) (u : Bytes) (o : Outbox)
    → length o.staged ≡ 0
    → length o.pending ≡ 0
    → o.unacked ≡ []
    → ((ack merge (o.sent + 1) (add_unacked u o).1).0 ≡ none)
      × (is_idle (ack merge (o.sent + 1) (add_unacked u o).1).1 ≡ true)
unfolding ack add_unacked take_before Dict.lookup Dict.insert Dict.erase ℕ_discrete
ack_last merge u o s p e = ground arith

ack-none :
    (merge : Merge) (n : ℕ) (o : Outbox)
    → length o.staged ≡ 0
    → length o.pending ≡ 0
    → o.unacked ≡ []
    → ((ack merge n o).0 ≡ none) × (is_idle (ack merge n o).1 ≡ true)
unfolding ack Dict.lookup
ack-none merge n o s p e = ground arith

is_settled-settle : (leads : Bool) (s : Session) → is_settled (settle leads s).1 ≡ is_settled s
unfolding settle
is_settled-settle leads s = ground arith

is_settled-outbox :
    (s : Session) (o : Outbox)
    → is_synced s ≡ true
    → s.disposed ≡ false
    → is_idle o ≡ true
    → is_settled (record s { outbox = o }) ≡ true
is_settled-outbox s o j d h = rw (j, d) h

-- An echo that brings nothing back and leaves the outbox idle.
echo_settles :
    (merge : Merge) (leads : Bool) (seq n : ℕ) (s : Session)
    → is_synced s ≡ true
    → s.disposed ≡ false
    → (ack merge n s.outbox).0 ≡ none
    → is_idle (ack merge n s.outbox).1 ≡ true
    → is_settled (on_echo merge leads seq n s).1 ≡ true
unfolding on_echo
echo_settles merge leads seq n s j d e h =
    is_settled-settle leads _
    ∙ (joined_first s.has_joined (ground arith)
        ∙ (ap
              (λ o.
                is_settled
                  (send_if o (record (with_seq seq s) { outbox = (ack merge n s.outbox).1 })).1)
              e
            ∙ is_settled-outbox (with_seq seq s) (ack merge n s.outbox).1 j d h))
  where
    joined_first :
        (b : Bool)
        → b ≡ true
        → is_settled
            (if b
              then resend_dropped merge n (with_seq seq s)
              else seeded merge s.seed (with_seq seq s)).1
          ≡ is_settled (resend_dropped merge n (with_seq seq s)).1
    joined_first true h = refl
    joined_first false h = ground arith

sent :
    (u : Bytes) (t : Session)
    → (send_update u t).1 ≡ record t { outbox = (add_unacked u t.outbox).1 }
unfolding send_update
sent u t = refl

echo_after :
    (merge : Merge) (leads : Bool) (seq : ℕ) (taken : Option Bytes) (t : Session)
    → is_synced t ≡ true
    → t.disposed ≡ false
    → length t.outbox.staged ≡ 0
    → length t.outbox.pending ≡ 0
    → t.outbox.unacked ≡ []
    → is_settled (on_echo merge leads seq (t.outbox.sent + 1) (send_if taken t).1).1 ≡ true
echo_after merge leads seq none t j d s p e =
    let a = ack-none merge (t.outbox.sent + 1) t.outbox s p e in
    echo_settles merge leads seq (t.outbox.sent + 1) t j d a.0 a.1
echo_after merge leads seq (some u) t j d s p e = sent_after
  where
    sent_after :
        is_settled (on_echo merge leads seq (t.outbox.sent + 1) (send_update u t).1).1 ≡ true
    sent_after =
        let a = ack_last merge u t.outbox s p e in
        subst (λ r. is_settled (on_echo merge leads seq (t.outbox.sent + 1) r).1 ≡ true)
          (sym (sent u t))
          (echo_settles merge leads seq (t.outbox.sent + 1)
            (record t { outbox = (add_unacked u t.outbox).1 }) j d a.0 a.1)

-- A resend settles the session: online, joined and with nothing staged or pending, it has nothing outstanding once the hub echoed the counter that its resend went out under, whatever was unacknowledged before.
pub resend_settles :
    (drain : Drain) (merge : Merge) (leads : Bool) (seq : ℕ) (s : Session)
    → is_synced s ≡ true
    → s.online ≡ true
    → s.disposed ≡ false
    → length s.outbox.staged ≡ 0
    → length s.outbox.pending ≡ 0
    → is_settled
        (step drain merge
          (Event.echoed leads seq (s.outbox.sent + 1))
          (step drain merge Event.resends s).1).1
      ≡ true
unfolding step resend_step take_unacked
resend_settles drain merge leads seq s j o d st p =
    resend_first (not (s.online && not s.disposed)) (ground arith)
  where
    taken : Option Bytes
    taken = (take_unacked merge s.outbox).0

    left : Session
    left = record s { outbox = (take_unacked merge s.outbox).1 }

    resend_first :
        (b : Bool)
        → b ≡ false
        → is_settled
            (on_echo merge leads seq
              (s.outbox.sent + 1)
              (if b then ([], s) else send_if taken left).1).1
          ≡ true
    resend_first false h = echo_after merge leads seq taken left j d st p refl
    resend_first true h = ground arith
