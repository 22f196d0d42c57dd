-- ===== src/Relay/Documents.antt =====
-- packages/relay/src/hub/docs.ts: the frames of live documents. A handler returns the sockets and
-- the store after it, and what the sockets are told, in order.
pub mod Reaching
pub mod Isolation
pub mod Writes
use obsync.Base.{
  ℕ, zero, suc, ◌+◌, Bool, true, false, not, ◌&&◌, ◌||◌, Option, none, some, List, [], ◌∷◌, ◌++◌,
  Text, Bytes, same, length, ltb, leb, ◌==◌, if◌then◌else◌,
}
use obsync.Protocol.Frames.{
  ClientBody, ServerBody, too_many_docs, read_only, max_doc_id_length, max_doc_subs,
  max_move_note_bytes,
}
use obsync.Relay.Peer.{Grant, DocSub, Peer, Effect, follows, subscribe, unsubscribe, replace}
use obsync.Relay.Delivery.{
  leave_frame, peer_frame, moved_frame, vouched_frame, send, refuse, broadcast, to_followers,
}
use obsync.Relay.Store
use obsync.Relay.Store.{Pointer, Store, is_null}

-- `FrameContext`.
pub record FrameContext : Type 0 where
  pub peers : List Peer
  pub peer : Peer
  pub grant : Grant

pub record Outcome : Type 0 where
  pub peers : List Peer
  pub store : Store
  pub effects : List Effect

-- The echo to the sender, and the update to the others.
unfoldable pub logged : FrameContext → ℕ → Text → ℕ → Bytes → ℕ → List Effect
logged x slot doc n payload seq =
    send x.peer slot doc (ServerBody.echo seq n)
    ++ to_followers x.peers x.grant.channel doc (ServerBody.fanout seq x.peer.tag payload)
        x.peer.tag

unfoldable pub send_state : Peer → Grant → ℕ → Text → ℕ → Store → List Effect
send_state peer grant slot doc since s =
    let st = Store.state grant.channel doc since s in
    send peer slot doc (ServerBody.state st.head st.snapshot st.deltas st.log)

-- What a moved document answers, whatever was asked.
abbrev pub moved_effects : FrameContext → ℕ → Text → Option Pointer → List Effect
moved_effects x slot doc none = []
moved_effects x slot doc (some p) = send x.peer slot doc (moved_frame p)

unfoldable pub seed : FrameContext → ℕ → Text → ℕ → Bytes → Text → Store → Outcome
seed x slot doc n payload drawn s =
    let (seq, s') = Store.seed x.grant.channel doc payload drawn s in
    record {
      peers = x.peers;
      store = s';
      effects = elim seq [
        | none ↦ send_state x.peer x.grant slot doc 0 s'
        | some k ↦ logged x slot doc n payload k
      ];
    }

-- The guard of `rotate`.
abbrev pub rotate_refused : Text → Text → Bytes → Bool
rotate_refused target doc note =
    length target == 0
    || (same target doc
        || (ltb max_doc_id_length (length target) || ltb max_move_note_bytes (length note)))

unfoldable pub rotate : FrameContext → ℕ → Text → Text → ℕ → Bytes → Bytes → Text → Store → Outcome
rotate x slot doc target upto note payload drawn s =
    if rotate_refused target doc note
    then record { peers = x.peers; store = s; effects = [] }
    else (let pointer : Pointer = record { target = target; note = note } in
        let (done, s') = Store.rotate x.grant.channel doc pointer upto payload drawn s in
        record {
          peers = x.peers;
          store = s';
          effects =
              if done
              then broadcast x.peers x.grant.channel doc (moved_frame pointer)
                  (λ at slot'. follows at slot' doc)
              else send_state x.peer x.grant slot doc upto s';
        })

-- What `followed` does once the document is known not to have moved.
unfoldable pub write : FrameContext → ℕ → Text → ClientBody → Text → Store → Outcome
write x slot doc (ClientBody.update n payload) drawn s =
    let (seq, s') = Store.append x.grant.channel doc payload drawn s in
    record { peers = x.peers; store = s'; effects = logged x slot doc n payload seq }
write x slot doc (ClientBody.seed n payload) drawn s = seed x slot doc n payload drawn s
write x slot doc (ClientBody.snapshot upto payload) drawn s = record {
  peers = x.peers;
  store = Store.compact x.grant.channel doc payload upto s;
  effects = [];
}
write x slot doc (ClientBody.rotate target upto note payload) drawn s =
    rotate x slot doc target upto note payload drawn s
write x slot doc _ drawn s = record { peers = x.peers; store = s; effects = [] }

unfoldable pub live : FrameContext → ℕ → Text → ClientBody → Text → Store → Outcome
live x slot doc (ClientBody.awareness payload) drawn s = record {
  peers = x.peers;
  store = s;
  effects = to_followers x.peers x.grant.channel doc (peer_frame x.peer.tag payload) x.peer.tag;
}
live x slot doc body drawn s =
    if x.grant.read_only
    then record { peers = x.peers; store = s; effects = refuse x.peer slot doc read_only }
    else write x slot doc body drawn s

-- `sendMoved` before any other frame.
unfoldable pub unless_moved : FrameContext → ℕ → Text → Store → (Store → Outcome) → Outcome
unless_moved x slot doc s rest =
    let (pointer, s') = Store.moved_to x.grant.channel doc s in
    if is_null pointer
    then rest s'
    else record { peers = x.peers; store = s'; effects = moved_effects x slot doc pointer }

unfoldable pub followed : FrameContext → ℕ → Text → ClientBody → Text → Store → Outcome
followed x slot doc ClientBody.unsub drawn s =
    let peers = replace (unsubscribe slot doc x.peer) x.peers in
    record {
      peers = peers;
      store = s;
      effects = to_followers peers x.grant.channel doc (leave_frame x.peer.tag) x.peer.tag;
    }
followed x slot doc body drawn s = unless_moved x slot doc s (live x slot doc body drawn)

-- A subscription to a document that has not moved.
unfoldable pub follow : FrameContext → ℕ → Text → ℕ → Store → Outcome
follow x slot doc since s =
    let fresh = not (follows x.peer slot doc) in
    if fresh && leb max_doc_subs (length x.peer.subs)
    then record { peers = x.peers; store = s; effects = refuse x.peer slot doc too_many_docs }
    else (let peers = if fresh then replace (subscribe slot doc x.peer) x.peers else x.peers in
        record {
          peers = peers;
          store = s;
          effects =
              send_state x.peer x.grant slot doc since s
              ++ (if fresh
                  then to_followers peers x.grant.channel doc
                      (ServerBody.join (vouched_frame x.peer.tag x.grant)) x.peer.tag
                  else []);
        })

unfoldable pub subscribe_to : FrameContext → ℕ → Text → ℕ → Store → Outcome
subscribe_to x slot doc since s =
    if ltb max_doc_id_length (length doc)
    then record { peers = x.peers; store = s; effects = [] }
    else unless_moved x slot doc s (follow x slot doc since)

-- `Documents.handle`.
unfoldable pub handle : FrameContext → ℕ → Text → ClientBody → Text → Store → Outcome
handle x slot doc (ClientBody.sub since) drawn s = subscribe_to x slot doc since s
handle x slot doc body drawn s =
    if follows x.peer slot doc
    then followed x slot doc body drawn s
    else record { peers = x.peers; store = s; effects = [] }

-- Whether `leaveDocs` speaks of a subscription, given its slot and the slot asked for.
abbrev pub is_asked : Option ℕ → ℕ → Bool
is_asked none at = true
is_asked (some slot) at = at == slot

abbrev pub grant_at : List (Option Grant) → ℕ → Option Grant
grant_at [] i = none
grant_at (g ∷ slots) zero = g
grant_at (g ∷ slots) (suc i) = grant_at slots i

unfoldable pub leave_docs_from : List Peer → Peer → Option ℕ → List DocSub → List Effect
leave_docs_from peers peer slot [] = []
leave_docs_from peers peer slot (sub ∷ subs) =
    (elim (grant_at peer.slots sub.slot) [
      | none ↦ []
      | some grant ↦
          if is_asked slot sub.slot
          then to_followers peers grant.channel sub.doc (leave_frame peer.tag) peer.tag
          else []
    ])
    ++ leave_docs_from peers peer slot subs

unfoldable pub leave_docs : List Peer → Peer → Option ℕ → List Effect
unfolding leave_docs_from
leave_docs peers peer slot = leave_docs_from peers peer slot peer.subs
