-- ===== src/Relay/Peer.antt =====
-- packages/relay/src/hub/peer.ts: a hub socket as the hub sees it, and the changes that
-- durable-object.ts makes to it. An `Effect` is what a socket is told.
use obsync.Base.{
  ℕ, suc, Bool, false, not, ◌&&◌, Option, none, some, List, [], ◌∷◌, ◌++◌, Text, same, ◌==◌, any,
  filter, set, if◌then◌else◌,
}
use obsync.Protocol.Frames.{ServerFrame}

pub record Grant : Type 0 where
  pub channel : Text
  pub grant : Text
  pub who : Text
  pub read_only : Bool
  pub name : Option Text

-- A document a socket follows, addressed by the socket's own slot.
pub record DocSub : Type 0 where
  pub slot : ℕ
  pub doc : Text

pub record Peer : Type 0 where
  pub tag : ℕ
  pub device : Text
  pub slots : List (Option Grant)
  pub subs : List DocSub

pub data Effect : Type 0 where
  sent : ℕ → ServerFrame → Effect
  closed : ℕ → ℕ → Effect

abbrev pub is_on : Text → Option Grant → Bool
is_on channel none = false
is_on channel (some g) = same g.channel channel

-- `findIndex`, from an index on.
unfoldable pub index_on : Text → ℕ → List (Option Grant) → Option ℕ
index_on channel i [] = none
index_on channel i (g ∷ slots) = if is_on channel g then some i else index_on channel (suc i) slots

unfoldable pub slot_of : Peer → Text → Option ℕ
unfolding index_on
slot_of peer channel = index_on channel 0 peer.slots

unfoldable pub grant_in : Text → List (Option Grant) → Option Grant
grant_in channel [] = none
grant_in channel (g ∷ slots) = if is_on channel g then g else grant_in channel slots

unfoldable pub grant_on : Peer → Text → Option Grant
unfolding grant_in
grant_on peer channel = grant_in channel peer.slots

abbrev pub is_sub : ℕ → Text → DocSub → Bool
is_sub slot doc s = s.slot == slot && same s.doc doc

unfoldable pub follows : Peer → ℕ → Text → Bool
follows peer slot doc = any (is_sub slot doc) peer.subs

unfoldable pub revoke : ℕ → Peer → Peer
revoke slot peer = record peer {
  slots = set peer.slots slot none;
  subs = filter (λ s. not (s.slot == slot)) peer.subs;
}

unfoldable pub subscribe : ℕ → Text → Peer → Peer
subscribe slot doc peer = record peer { subs = peer.subs ++ record { slot = slot; doc = doc } ∷ [] }

unfoldable pub unsubscribe : ℕ → Text → Peer → Peer
unsubscribe slot doc peer = record peer { subs = filter (λ s. not (is_sub slot doc s)) peer.subs }

-- The hub's list holds the sockets themselves: a change of one is a change in the list.
unfoldable pub replace : Peer → List Peer → List Peer
replace peer [] = []
replace peer (p ∷ peers) = (if p.tag == peer.tag then peer else p) ∷ replace peer peers
