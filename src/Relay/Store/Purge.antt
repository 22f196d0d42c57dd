-- ===== src/Relay/Store/Purge.antt =====
-- `purge`: what a channel's documents answer once it is closed.
use obsync.Base.{ℕ, ◌≡◌, ◌≢◌, refl, sym, ◌∙◌, ap, ap₂, none, [], Text, text_dec, if_pos, if_neg}
use obsync.Base.Dict
use obsync.Relay.Store
use obsync.Relay.Store.Spec
use obsync.Relay.Store.Spec.{Spec}
use obsync.Relay.Store.Tracking.{Tracks, moved_to-Tracks, purge-Tracks}
use obsync.Relay.Store.{Store, DocState, DocsRow, Delta}

-- A document's row and deltas are all that `state` reads.
state-cong :
    (channel doc : Text) (since : ℕ) (s t : Store)
    → s.docs channel doc ≡ t.docs channel doc
    → s.deltas channel doc ≡ t.deltas channel doc
    → Store.state channel doc since s ≡ Store.state channel doc since t
unfolding Store.state Store.row
state-cong channel doc since s t e f =
    ap₂ (λ r xs. Store.state channel doc since (record s { docs = λ c d. r; deltas = λ c d. xs })) e
      f

pub state-purge_other :
    (channel other doc : Text) (since : ℕ) (s : Store)
    → channel ≢ other
    → Store.state other doc since (Store.purge channel s) ≡ Store.state other doc since s
unfolding Store.purge
state-purge_other channel other doc since s apart =
    state-cong other doc since (Store.purge channel s) s
      (if_neg (text_dec channel other) apart none (s.docs other doc))
      (if_neg (text_dec channel other) apart [] (s.deltas other doc))

-- No row and no delta of it are left.
purge-docs : (channel doc : Text) (s : Store) → (Store.purge channel s).docs channel doc ≡ none
unfolding Store.purge
purge-docs channel doc s = if_pos (text_dec channel channel) refl none (s.docs channel doc)

pub state-purge :
    (channel doc : Text) (since : ℕ) (s : Store)
    → Store.state channel doc since (Store.purge channel s)
      ≡ record { head = 0; snapshot = none; deltas = []; log = [] }
unfolding Store.state Store.row
state-purge channel doc since s =
    ap (λ r. Store.state channel doc since (record (Store.purge channel s) { docs = λ c d. r }))
      (purge-docs channel doc s)

pub moved_to-purge :
    (channel doc : Text) (s : Store) → (Store.moved_to channel doc (Store.purge channel s)).0 ≡ none
unfolding Store.moved_to Store.purge Dict.lookup
moved_to-purge channel doc s = ap Store.pointer_of (purge-docs channel doc s)

-- The cache is emptied, but the table still has the pointer.
pub moved_to-purge_other :
    (channel other doc : Text) (s : Store) (a : Spec)
    → Tracks s a
    → channel ≢ other
    → (Store.moved_to other doc (Store.purge channel s)).0 ≡ (Store.moved_to other doc s).0
unfolding Spec.purge
moved_to-purge_other channel other doc s a h apart =
    (moved_to-Tracks other doc (Store.purge channel s) (Spec.purge channel a)
      (purge-Tracks channel s a h)).0
    ∙ if_neg (text_dec channel other) apart none (a.pointers other doc)
    ∙ sym (moved_to-Tracks other doc s a h).0
