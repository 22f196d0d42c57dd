-- ===== src/Tests/Sample.antt =====
-- A coding of ASCII texts, and a small hub, for the tests.
use obsync.Base.{
  ◌≡◌, Bool, true, false, Option, none, some, List, [], ◌∷◌, arith, Text, Bytes, codes, all, ltb,
  if◌then◌else◌,
}
use obsync.Protocol.Bytes.{TextCoding}
use obsync.Relay.Limits.{new_limits}
use obsync.Relay.Peer.{Grant, Peer}
use obsync.Relay.Store.{Pointer, new_store}
use obsync.Relay.Store.History.{Call, run}
use obsync.Relay.Core.{Hub}

abbrev pub is_ascii : Text → Bool
is_ascii = all (λ c. ltb c 128)

abbrev pub decode_ascii : Bytes → Option Text
decode_ascii b = if is_ascii b then some b else none

pub decode_ascii-same : (s : Text) → is_ascii s ≡ true → decode_ascii s ≡ some s
decode_ascii-same s h = ground arith

pub decode_ascii-some : (b s : Text) → decode_ascii b ≡ some s → s ≡ b
decode_ascii-some b s h = ground arith

abbrev pub ascii : TextCoding
ascii = record {
  encode = λ s. s;
  decode = decode_ascii;
  well_formed = is_ascii;
  decode-encode = decode_ascii-same;
  encode-decode = decode_ascii-some;
}

abbrev pub notes : Text
notes = codes "notes"

abbrev pub other : Text
other = codes "work"

abbrev pub doc : Text
doc = codes "d"

abbrev pub fresh_doc : Text
fresh_doc = codes "e"

abbrev pub writer : Grant
writer = record {
  channel = notes;
  grant = codes "g1";
  who = codes "ann";
  read_only = false;
  name = some (codes "Ann");
}

abbrev pub reader : Grant
reader = record writer { grant = codes "g2"; who = codes "bob"; read_only = true; name = none }

abbrev pub ann : Peer
ann = record {
  tag = 1;
  device = codes "pc";
  slots = some writer ∷ [];
  subs = record { slot = 0; doc = doc } ∷ [];
}

-- A reader, who has the channel at another slot.
abbrev pub bob : Peer
bob = record {
  tag = 2;
  device = codes "phone";
  slots = none ∷ some reader ∷ [];
  subs = record { slot = 1; doc = doc } ∷ [];
}

abbrev pub moved_there : Pointer
moved_there = record { target = fresh_doc; note = 9 ∷ [] }

-- Three updates, two of them folded into a snapshot.
abbrev pub history : List Call
history =
    Call.seeds notes doc (1 ∷ []) (codes "l1")
    ∷ Call.moves notes doc
    ∷ Call.appends notes doc (2 ∷ []) (codes "l2")
    ∷ Call.seeds notes doc (7 ∷ []) (codes "l3")
    ∷ Call.compacts notes doc (1 ∷ 2 ∷ []) 2
    ∷ Call.appends notes doc (3 ∷ []) (codes "l4")
    ∷ []

-- The document moves, once the mover knows all of it.
abbrev pub moving : List Call
moving =
    Call.appends notes doc (1 ∷ []) (codes "l1")
    ∷ Call.rotates notes doc moved_there 0 (4 ∷ []) (codes "l2")
    ∷ Call.rotates notes doc moved_there 1 (4 ∷ []) (codes "l3")
    ∷ Call.moves notes doc
    ∷ Call.purges other
    ∷ []

abbrev pub hub : Hub
hub = record { peers = ann ∷ bob ∷ []; store = (run history new_store).1; limits = new_limits }
