-- ===== src/Relay/Documents/Writes.antt =====
-- What a document frame does to the rows of the store.
use obsync.Base.{
  ℕ, ◌≡◌, ◌≢◌, refl, ◌⊎◌, inl, inr, true, false, none, [], arith, Text, if◌then◌else◌,
}
use obsync.Protocol.Frames.{ClientBody}
use obsync.Relay.Peer.{follows}
use obsync.Relay.Store
use obsync.Relay.Store.{Pointer, Store, is_null}
use obsync.Relay.Store.Spec
use obsync.Relay.Store.Spec.{Spec}
use obsync.Relay.Documents
use obsync.Relay.Documents.{FrameContext, Outcome}

-- The two tables; the cache may differ.
abbrev pub SameRows : Store → Store → Type 0
SameRows s t = (t.docs ≡ s.docs) × (t.deltas ≡ s.deltas)

moved_to-SameRows : (c d : Text) (s : Store) → SameRows s (Store.moved_to c d s).1
unfolding Store.moved_to Store.remember
moved_to-SameRows c d s = ground arith

module _ (x : FrameContext) (slot : ℕ) (doc : Text) where
  unless_moved-SameRows :
      (s : Store) (rest : Store → Outcome)
      → ((t : Store) → SameRows t (rest t).store)
      → SameRows s (Documents.unless_moved x slot doc s rest).store
  unfolding Documents.unless_moved
  unless_moved-SameRows s rest h =
      let s' = (Store.moved_to x.grant.channel doc s).1 in
      ground (arith, h s', moved_to-SameRows x.grant.channel doc s)

  unless_moved-gone :
      (s : Store) (rest : Store → Outcome)
      → (Store.moved_to x.grant.channel doc s).0 ≢ none
      → SameRows s (Documents.unless_moved x slot doc s rest).store
  unfolding Documents.unless_moved
  unless_moved-gone s rest h = ground (arith, moved_to-SameRows x.grant.channel doc s)

  live-read_only :
      (body : ClientBody) (drawn : Text) (s : Store)
      → x.grant.read_only ≡ true
      → SameRows s (Documents.live x slot doc body drawn s).store
  unfolding Documents.live
  live-read_only (ClientBody.awareness payload) drawn s h = (refl, refl)
  live-read_only body drawn s h = ground arith

  follow-SameRows : (since : ℕ) (s : Store) → SameRows s (Documents.follow x slot doc since s).store
  unfolding Documents.follow
  follow-SameRows since s = ground arith

  abbrev IsFrozen : Store → Type 0
  IsFrozen s = (x.grant.read_only ≡ true) ⊎ ((Store.moved_to x.grant.channel doc s).0 ≢ none)

  live_or_gone :
      (body : ClientBody) (drawn : Text) (s : Store)
      → IsFrozen s
      → SameRows s
          (Documents.unless_moved x slot doc s (Documents.live x slot doc body drawn)).store
  live_or_gone body drawn s (inl r) =
      unless_moved-SameRows s (Documents.live x slot doc body drawn)
        (λ t. live-read_only body drawn t r)
  live_or_gone body drawn s (inr g) = unless_moved-gone s (Documents.live x slot doc body drawn) g

  followed-SameRows :
      (body : ClientBody) (drawn : Text) (s : Store)
      → IsFrozen s
      → SameRows s (Documents.followed x slot doc body drawn s).store
  unfolding Documents.followed
  followed-SameRows ClientBody.unsub drawn s h = (refl, refl)
  followed-SameRows body drawn s h = live_or_gone body drawn s h

  subscribe_to-SameRows :
      (since : ℕ) (s : Store) → SameRows s (Documents.subscribe_to x slot doc since s).store
  unfolding Documents.subscribe_to
  subscribe_to-SameRows since s =
      ground
        (arith, unless_moved-SameRows s (Documents.follow x slot doc since) (follow-SameRows since))

  followed_or_not :
      (body : ClientBody) (drawn : Text) (s : Store)
      → (follows x.peer slot doc ≡ false) ⊎ IsFrozen s
      → SameRows s
          (if follows x.peer slot doc
            then Documents.followed x slot doc body drawn s
            else record { peers = x.peers; store = s; effects = [] }).store
  followed_or_not body drawn s (inl n) = ground arith
  followed_or_not body drawn s (inr f) = ground (arith, followed-SameRows body drawn s f)

  -- No frame of a read-only grant, of a socket that does not follow the document, or about a
  -- document that has moved changes a row of the store.
  pub handle-SameRows :
      (body : ClientBody) (drawn : Text) (s : Store)
      → (follows x.peer slot doc ≡ false)
        ⊎ ((x.grant.read_only ≡ true) ⊎ ((Store.moved_to x.grant.channel doc s).0 ≢ none))
      → SameRows s (Documents.handle x slot doc body drawn s).store
  unfolding Documents.handle
  handle-SameRows (ClientBody.sub since) drawn s h = subscribe_to-SameRows since s
  handle-SameRows body drawn s h = followed_or_not body drawn s h
