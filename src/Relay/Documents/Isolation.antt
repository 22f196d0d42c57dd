-- ===== src/Relay/Documents/Isolation.antt =====
-- Who is told of a document frame.
use obsync.Base.{
  ℕ, refl, inl, inr, Bool, true, false, not, ◌&&◌, Option, none, some, List, [], Text, Bytes,
  length, ltb, leb, if◌then◌else◌, All, All-append, Bool-cases, Option-cases,
}
use obsync.Protocol.Frames.{
  ClientBody, ServerBody, read_only, max_doc_id_length, max_doc_subs, too_many_docs,
}
use obsync.Relay.Peer.{Peer, Effect, follows, subscribe, replace}
use obsync.Relay.Delivery.{refuse, broadcast, to_followers, leave_frame, moved_frame, vouched_frame}
use obsync.Relay.Store
use obsync.Relay.Store.{Pointer, Store, is_null}
use obsync.Relay.Documents
use obsync.Relay.Documents.{FrameContext, Outcome, moved_effects, rotate_refused}
use obsync.Relay.Documents.Reaching.{Reaches, send-Reaches, broadcast-Reaches, to_followers-Reaches}

-- An outcome tells only those whom it may.
abbrev pub IsPrivate : FrameContext → Text → Outcome → Type 0
IsPrivate x doc o = All (Reaches o.peers x.grant.channel doc x.peer.tag) o.effects

module _ (x : FrameContext) (slot : ℕ) (doc : Text) where
  logged-Reaches :
      (n : ℕ) (payload : Bytes) (seq : ℕ)
      → All
          (Reaches x.peers x.grant.channel doc x.peer.tag)
          (Documents.logged x slot doc n payload seq)
  unfolding Documents.logged
  logged-Reaches n payload seq =
      All-append (Reaches x.peers x.grant.channel doc x.peer.tag) _ _
        (send-Reaches x.grant.channel doc x.peer.tag x.peers x.peer slot (ServerBody.echo seq n)
          refl)
        (to_followers-Reaches x.grant.channel doc x.peer.tag x.peers
          (ServerBody.fanout seq x.peer.tag payload) x.peer.tag)

  state-Reaches :
      (peers : List Peer) (since : ℕ) (s : Store)
      → All
          (Reaches peers x.grant.channel doc x.peer.tag)
          (Documents.send_state x.peer x.grant slot doc since s)
  unfolding Documents.send_state
  state-Reaches peers since s = send-Reaches x.grant.channel doc x.peer.tag peers x.peer slot _ refl

  refuse-Reaches :
      (reason : ℕ)
      → All (Reaches x.peers x.grant.channel doc x.peer.tag) (refuse x.peer slot doc reason)
  unfolding refuse
  refuse-Reaches reason =
      send-Reaches x.grant.channel doc x.peer.tag x.peers x.peer slot (ServerBody.refused reason)
        refl

  moved-Reaches :
      (p : Option Pointer)
      → All (Reaches x.peers x.grant.channel doc x.peer.tag) (moved_effects x slot doc p)
  moved-Reaches none = tt
  moved-Reaches (some p) =
      send-Reaches x.grant.channel doc x.peer.tag x.peers x.peer slot (moved_frame p) refl

  if-IsPrivate :
      (b : Bool) (o p : Outcome)
      → IsPrivate x doc o
      → IsPrivate x doc p
      → IsPrivate x doc (if b then o else p)
  if-IsPrivate true o p h k = h
  if-IsPrivate false o p h k = k

  if-All :
      (peers : List Peer) (b : Bool) (out : List Effect)
      → All (Reaches peers x.grant.channel doc x.peer.tag) out
      → All (Reaches peers x.grant.channel doc x.peer.tag) (if b then out else [])
  if-All peers true out h = h
  if-All peers false out h = tt

  seed-IsPrivate :
      (n : ℕ) (payload : Bytes) (drawn : Text) (s : Store)
      → IsPrivate x doc (Documents.seed x slot doc n payload drawn s)
  unfolding Documents.seed
  seed-IsPrivate n payload drawn s =
      let (seq, s') = Store.seed x.grant.channel doc payload drawn s in
      elim (Option-cases seq) [
        | inl e ↦ rw (e, Documents.seed) (state-Reaches x.peers 0 s')
        | inr (k, e) ↦ rw (e, Documents.seed) (logged-Reaches n payload k)
      ]

  rotate-IsPrivate :
      (target : Text) (upto : ℕ) (note payload : Bytes) (drawn : Text) (s : Store)
      → IsPrivate x doc (Documents.rotate x slot doc target upto note payload drawn s)
  unfolding Documents.rotate
  rotate-IsPrivate target upto note payload drawn s =
      let pointer : Pointer = record { target = target; note = note } in
      let (done, s') = Store.rotate x.grant.channel doc pointer upto payload drawn s in
      let out : Outcome = record {
        peers = x.peers;
        store = s';
        effects =
            if done
            then broadcast x.peers x.grant.channel doc (moved_frame pointer)
                (λ at slot'. follows at slot' doc)
            else Documents.send_state x.peer x.grant slot doc upto s';
      } in
      if-IsPrivate (rotate_refused target doc note) _ out tt (elim (Bool-cases done) [
        | inl moved ↦ rw moved (
            broadcast-Reaches x.grant.channel doc x.peer.tag x.peers (moved_frame pointer)
              (λ at slot'. follows at slot' doc) (λ p at h. h))
        | inr kept ↦ rw kept (state-Reaches x.peers upto s')
      ])

  write-IsPrivate :
      (body : ClientBody) (drawn : Text) (s : Store)
      → IsPrivate x doc (Documents.write x slot doc body drawn s)
  unfolding Documents.write
  write-IsPrivate (ClientBody.update n payload) drawn s =
      logged-Reaches n payload (Store.append x.grant.channel doc payload drawn s).0
  write-IsPrivate (ClientBody.seed n payload) drawn s = seed-IsPrivate n payload drawn s
  write-IsPrivate (ClientBody.rotate target upto note payload) drawn s =
      rotate-IsPrivate target upto note payload drawn s
  write-IsPrivate _ drawn s = tt

  refused_or :
      (body : ClientBody) (drawn : Text) (s : Store)
      → IsPrivate x doc (
          if x.grant.read_only
          then record { peers = x.peers; store = s; effects = refuse x.peer slot doc read_only }
          else Documents.write x slot doc body drawn s)
  refused_or body drawn s =
      if-IsPrivate x.grant.read_only _ _ (refuse-Reaches read_only) (write-IsPrivate body drawn s)

  live-IsPrivate :
      (body : ClientBody) (drawn : Text) (s : Store)
      → IsPrivate x doc (Documents.live x slot doc body drawn s)
  unfolding Documents.live
  live-IsPrivate (ClientBody.awareness payload) drawn s =
      to_followers-Reaches x.grant.channel doc x.peer.tag x.peers _ x.peer.tag
  live-IsPrivate body drawn s = refused_or body drawn s

  unless_moved-IsPrivate :
      (s : Store) (rest : Store → Outcome)
      → ((t : Store) → IsPrivate x doc (rest t))
      → IsPrivate x doc (Documents.unless_moved x slot doc s rest)
  unfolding Documents.unless_moved
  unless_moved-IsPrivate s rest h =
      let (pointer, s') = Store.moved_to x.grant.channel doc s in
      if-IsPrivate (is_null pointer) _ _ (h s') (moved-Reaches pointer)

  followed-IsPrivate :
      (body : ClientBody) (drawn : Text) (s : Store)
      → IsPrivate x doc (Documents.followed x slot doc body drawn s)
  unfolding Documents.followed
  followed-IsPrivate ClientBody.unsub drawn s =
      to_followers-Reaches x.grant.channel doc x.peer.tag _ (leave_frame x.peer.tag) x.peer.tag
  followed-IsPrivate body drawn s =
      unless_moved-IsPrivate s (Documents.live x slot doc body drawn) (live-IsPrivate body drawn)

  follow-IsPrivate : (since : ℕ) (s : Store) → IsPrivate x doc (Documents.follow x slot doc since s)
  unfolding Documents.follow
  follow-IsPrivate since s =
      let fresh = not (follows x.peer slot doc) in
      let peers = if fresh then replace (subscribe slot doc x.peer) x.peers else x.peers in
      let others =
        to_followers peers x.grant.channel doc (ServerBody.join (vouched_frame x.peer.tag x.grant))
          x.peer.tag in
      if-IsPrivate (fresh && leb max_doc_subs (length x.peer.subs)) _ _
        (refuse-Reaches too_many_docs)
        (All-append (Reaches peers x.grant.channel doc x.peer.tag) _ (if fresh then others else [])
          (state-Reaches peers since s)
          (if-All peers fresh others
            (to_followers-Reaches x.grant.channel doc x.peer.tag peers _ x.peer.tag)))

  subscribe_to-IsPrivate :
      (since : ℕ) (s : Store) → IsPrivate x doc (Documents.subscribe_to x slot doc since s)
  unfolding Documents.subscribe_to
  subscribe_to-IsPrivate since s =
      if-IsPrivate (ltb max_doc_id_length (length doc)) _ _ tt
        (unless_moved-IsPrivate s (Documents.follow x slot doc since) (follow-IsPrivate since))

  followed_or_nothing :
      (body : ClientBody) (drawn : Text) (s : Store)
      → IsPrivate x doc (
          if follows x.peer slot doc
          then Documents.followed x slot doc body drawn s
          else record { peers = x.peers; store = s; effects = [] })
  followed_or_nothing body drawn s =
      if-IsPrivate (follows x.peer slot doc) _ _ (followed-IsPrivate body drawn s) tt

  -- Whatever a socket sends about a document, every frame that goes out for it is about that
  -- document, and goes to the socket itself or to one that follows the document on the same
  -- channel, addressed by that socket's own slot.
  pub handle-IsPrivate :
      (body : ClientBody) (drawn : Text) (s : Store)
      → IsPrivate x doc (Documents.handle x slot doc body drawn s)
  unfolding Documents.handle
  handle-IsPrivate (ClientBody.sub since) drawn s = subscribe_to-IsPrivate since s
  handle-IsPrivate body drawn s = followed_or_nothing body drawn s
