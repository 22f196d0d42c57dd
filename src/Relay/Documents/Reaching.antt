-- ===== src/Relay/Documents/Reaching.antt =====
-- Whom one frame of a document may reach.
use obsync.Base.{
  ℕ, ◌≡◌, refl, ◌⊎◌, inl, inr, Bool, true, Option, none, some, List, [], ◌∷◌, arith, Text, All,
  All-append, Bool-cases,
}
use obsync.Protocol.Frames.{ServerBody}
use obsync.Relay.Peer.{Peer, Effect, slot_of, follows}
use obsync.Relay.Delivery.{send, offer, broadcast, to_followers}

abbrev pub IsIn : Peer → List Peer → Type 0
IsIn p [] = ⊥
IsIn p (q ∷ qs) = (p ≡ q) ⊎ IsIn p qs

-- The frame is about `doc`, and goes to the sender or to a follower of `doc`, on the slot that the
-- follower has for the channel.
abbrev pub Reaches : List Peer → Text → Text → ℕ → Effect → Type 0
Reaches peers channel doc sender (Effect.closed to code) = ⊥
Reaches peers channel doc sender (Effect.sent to f) =
    (f.doc ≡ doc)
    × ((to ≡ sender)
        ⊎ ((p : Peer) × IsIn p peers
            × (p.tag ≡ to)
            × (slot_of p channel ≡ some f.slot)
            × (follows p f.slot doc ≡ true)))

module _ (channel doc : Text) (sender : ℕ) where
  pub send-Reaches :
      (peers : List Peer) (peer : Peer) (slot : ℕ) (body : ServerBody)
      → peer.tag ≡ sender
      → All (Reaches peers channel doc sender) (send peer slot doc body)
  unfolding send
  send-Reaches peers peer slot body e = ((refl, inl e), tt)

  offer-Reaches :
      (peers : List Peer) (peer : Peer) (at : Option ℕ) (body : ServerBody) (accept : ℕ → Bool)
      → IsIn peer peers
      → slot_of peer channel ≡ at
      → ((slot : ℕ) → accept slot ≡ true → follows peer slot doc ≡ true)
      → All (Reaches peers channel doc sender) (offer peer at doc body accept)
  unfolding offer
  offer-Reaches peers peer none body accept m e f = tt
  offer-Reaches peers peer (some slot) body accept m e f = elim (Bool-cases (accept slot)) [
    | inl yes_ ↦ rw yes_ ((refl, inr (peer, m, refl, e, f slot yes_)), tt)
    | inr no_ ↦ rw no_ tt
  ]

  broadcast-Reaches_among :
      (all peers : List Peer) (body : ServerBody) (accept : Peer → ℕ → Bool)
      → ((p : Peer) → IsIn p peers → IsIn p all)
      → ((p : Peer) (slot : ℕ) → accept p slot ≡ true → follows p slot doc ≡ true)
      → All (Reaches all channel doc sender) (broadcast peers channel doc body accept)
  unfolding broadcast
  broadcast-Reaches_among all [] body accept m f = tt
  broadcast-Reaches_among all (p ∷ peers) body accept m f =
      All-append (Reaches all channel doc sender) (offer p (slot_of p channel) doc body (accept p))
        (broadcast peers channel doc body accept)
        (offer-Reaches all p (slot_of p channel) body (accept p) (m p (inl refl)) refl (f p))
        (broadcast-Reaches_among all peers body accept (λ q k. m q (inr k)) f)

  pub broadcast-Reaches :
      (peers : List Peer) (body : ServerBody) (accept : Peer → ℕ → Bool)
      → ((p : Peer) (slot : ℕ) → accept p slot ≡ true → follows p slot doc ≡ true)
      → All (Reaches peers channel doc sender) (broadcast peers channel doc body accept)
  broadcast-Reaches peers body accept f =
      broadcast-Reaches_among peers peers body accept (λ p m. m) f

  pub to_followers-Reaches :
      (peers : List Peer) (body : ServerBody) (except : ℕ)
      → All (Reaches peers channel doc sender) (to_followers peers channel doc body except)
  unfolding to_followers
  to_followers-Reaches peers body except = broadcast-Reaches peers body _ (λ p slot h. ground arith)
