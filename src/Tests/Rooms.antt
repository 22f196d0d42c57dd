-- ===== src/Tests/Rooms.antt =====
-- A session in its room, with updates merged by being joined.
use obsync.Base.{
  ◌≡◌, refl, Bool, true, false, ◌||◌, none, List, [], ◌∷◌, ◌++◌, arith, Bytes, codes, ℕ_discrete,
  any, ◌==◌,
}
use obsync.Base.Dict
use obsync.Relay.Store.{DocState}
use obsync.Live.Outbox.{
  Drain, Merge, add_pending, take_pending, take_merged, add_unacked, ack, take_before, take_unacked,
}
use obsync.Live.Outbox.Held.{IsMerging, any-append}
use obsync.Live.RoomLog.{reached, is_compaction_due, compacted_now}
use obsync.Live.Session.{
  Session, is_settled, send_update, on_local_update, settle, go_online, on_echo,
}
use obsync.Live.Session.Steps.{
  Event, step, run, start, ship_step, on_state_unsealed, on_reconciled, after_state,
}
use obsync.Live.Session.Kept.{holds}
use obsync.Live.Session.Histories.{run_accounts, settled_is_acked}
use obsync.Live.Session.Settling.{resend_settles}

abbrev joined : Merge
joined [] = []
joined (u ∷ us) = u ++ joined us

abbrev has_seven : Bytes → Bool
has_seven u = any (λ c. c == 7) u

joined-any : (us : List Bytes) → has_seven (joined us) ≡ any has_seven us
joined-any [] = refl
joined-any (u ∷ us) = ground (arith, any-append (λ c. c == 7) u (joined us), joined-any us)

joined-IsMerging : IsMerging joined has_seven
joined-IsMerging u us = joined-any (u ∷ us)

abbrev no_drain : Drain
no_drain d = ([], [])

abbrev room : DocState
room = record { head = 4; snapshot = none; deltas = []; log = codes "x" }

-- Joined and online, two edits go out; the first is dropped on its way, and the second echoed.
abbrev events : List Event
events =
    Event.state_unsealed true 0 true room
    ∷ Event.reconciled true 0
    ∷ Event.edited (7 ∷ [])
    ∷ Event.ships true
    ∷ Event.edited (8 ∷ [])
    ∷ Event.ships true
    ∷ Event.echoed true 5 2
    ∷ []

abbrev all_events : List Event
all_events = events ++ Event.echoed true 6 3 ∷ []

run_accounts_example : any has_seven (run no_drain joined events (start 0 true)).edits ≡ (
    any has_seven (run no_drain joined events (start 0 true)).acked
    || holds has_seven (run no_drain joined events (start 0 true)).session)
run_accounts_example = run_accounts no_drain joined has_seven joined-IsMerging events 0 true

settled : is_settled (run no_drain joined all_events (start 0 true)).session ≡ true
unfolding run step on_local_update add_pending ship_step take_pending take_merged send_update
    add_unacked on_echo ack take_before settle go_online take_unacked on_state_unsealed
    on_reconciled after_state reached is_compaction_due compacted_now Dict.lookup Dict.insert
    Dict.erase ℕ_discrete
settled = refl

settled_is_acked_example :
    any has_seven (run no_drain joined all_events (start 0 true)).edits
    ≡ any has_seven (run no_drain joined all_events (start 0 true)).acked
settled_is_acked_example =
    settled_is_acked no_drain joined has_seven joined-IsMerging all_events 0 true settled

abbrev waiting : Session
waiting = record {
  has_joined = true;
  online = true;
  epoch = 0;
  disposed = false;
  seed = none;
  moved_to = none;
  log = record { seq = 5; compacted = 0; name = none; left = none; known_seq = 0 };
  outbox = record {
    pending = [];
    unacked = (1, 7 ∷ []) ∷ (2, 8 ∷ []) ∷ [];
    sent = 2;
    staged = [];
    timer = false;
    ack_timer = true;
  };
  rest = none;
}

resend_settles_example :
    is_settled
      (step no_drain joined
        (Event.echoed true 6 3)
        (step no_drain joined Event.resends waiting).1).1
    ≡ true
resend_settles_example = resend_settles no_drain joined true 6 waiting refl refl refl refl refl
