-- ===== src/Relay/Core/Revocation.antt =====
-- What a revocation leaves of the sockets.
use obsync.Base.{
  ℕ, suc, ◌≡◌, ◌≢◌, refl, sym, ap, ap₂, subst, ◌∙◌, inl, inr, Bool, false, Option, none, some, List,
  [], ◌∷◌, ◌++◌, append_assoc, append-nil, map, arith, Text, length, set, All, if◌then◌else◌,
  Bool-cases, length-append, same,
}
use obsync.Relay.Peer.{Grant, Peer, revoke, replace}
use obsync.Relay.Store
use obsync.Relay.Store.{Store}
use obsync.Relay.Store.Spec.{Spec}
use obsync.Relay.Store.Tracking.{Tracks}
use obsync.Relay.Store.Purge.{state-purge, state-purge_other, moved_to-purge, moved_to-purge_other}
use obsync.Relay.Core
use obsync.Relay.Core.{Hub}

-- No two sockets have one tag.
abbrev pub IsFresh : ℕ → List Peer → Type 0
IsFresh tag [] = Unit
IsFresh tag (p ∷ peers) = (p.tag ≢ tag) × IsFresh tag peers

abbrev pub HasUniqueTags : List Peer → Type 0
HasUniqueTags [] = Unit
HasUniqueTags (p ∷ peers) = IsFresh p.tag peers × HasUniqueTags peers

IsFresh-middle :
    (tag : ℕ) (done todo : List Peer) (p q : Peer)
    → IsFresh tag (done ++ p ∷ todo)
    → (p.tag ≢ tag) × (q.tag ≡ p.tag → IsFresh tag (done ++ q ∷ todo))
IsFresh-middle tag [] todo p q h = (h.0, λ e. (rw e h.0, h.1))
IsFresh-middle tag (d ∷ done) todo p q h =
    let (apart, rest) = IsFresh-middle tag done todo p q h.1 in (apart, λ e. (h.0, rest e))

HasUniqueTags-middle :
    (done todo : List Peer) (p q : Peer)
    → HasUniqueTags (done ++ p ∷ todo)
    → IsFresh p.tag done × IsFresh p.tag todo × (q.tag ≡ p.tag → HasUniqueTags (done ++ q ∷ todo))
HasUniqueTags-middle [] todo p q h = (tt, h.0, λ e. (rw e h.0, h.1))
HasUniqueTags-middle (d ∷ done) todo p q h =
    let (before, after, rest) = HasUniqueTags-middle done todo p q h.1 in
    let (apart, fresh) = IsFresh-middle d.tag done todo p q h.0 in
    ((λ e. apart (sym e), before), after, λ e. (fresh e, rest e))

replace_fresh : (p : Peer) (peers : List Peer) → IsFresh p.tag peers → replace p peers ≡ peers
unfolding replace
replace_fresh p [] h = refl
replace_fresh p (q ∷ peers) h = ground (arith, replace_fresh p peers h.1)

replace_middle :
    (done todo : List Peer) (p q : Peer)
    → q.tag ≡ p.tag
    → IsFresh p.tag done
    → IsFresh p.tag todo
    → replace q (done ++ p ∷ todo) ≡ done ++ q ∷ todo
unfolding replace
replace_middle [] todo p q e h k =
    ground (arith, replace_fresh q todo (subst (λ t. IsFresh t todo) (sym e) k))
replace_middle (d ∷ done) todo p q e h k = ground (arith, replace_middle done todo p q e h.1 k)

map-append {ℓ κ} :
    {A : Type ℓ} {B : Type κ} (f : A → B) (xs ys : List A) → map f (xs ++ ys) ≡ map f xs ++ map f ys
map-append f [] ys = refl
map-append f (x ∷ xs) ys = ap (◌∷◌ (f x)) (map-append f xs ys)

next_index :
    (pre : List (Option Grant)) (g : Option Grant) (at : ℕ)
    → at ≡ length pre
    → suc at ≡ length (pre ++ g ∷ [])
next_index pre g at e = omega (arith, length-append pre (g ∷ []))

module _ (matches : Grant → Bool) where
  -- A slot, unless its grant is cut.
  abbrev pub keep : Option Grant → Option Grant
  keep none = none
  keep (some g) = if matches g then none else some g

  abbrev pub IsCut : Option Grant → Type 0
  IsCut none = Unit
  IsCut (some g) = matches g ≡ false

  keep-IsCut : (slots : List (Option Grant)) → All IsCut (map keep slots)
  keep-IsCut [] = tt
  keep-IsCut (none ∷ slots) = (tt, keep-IsCut slots)
  keep-IsCut (some g ∷ slots) = elim (Bool-cases (matches g)) [
    | inl e ↦ rw e (tt, keep-IsCut slots)
    | inr e ↦ rw e (e, keep-IsCut slots)
  ]

  set-length_append :
      (pre rest : List (Option Grant)) (g : Option Grant)
      → set (pre ++ g ∷ rest) (length pre) none ≡ (pre ++ none ∷ []) ++ rest
  set-length_append [] rest g = refl
  set-length_append (x ∷ pre) rest g = ap (◌∷◌ x) (set-length_append pre rest g)

  revoke-slots :
      (pre rest : List (Option Grant)) (g : Grant) (peer : Peer) (at : ℕ)
      → peer.slots ≡ pre ++ some g ∷ rest
      → at ≡ length pre
      → (revoke at peer).slots ≡ (pre ++ none ∷ []) ++ rest
  unfolding revoke
  revoke-slots pre rest g peer at e f =
      ap₂ (λ slots i. set slots i none) e f ∙ set-length_append pre rest (some g)

  -- The slots of a socket after its slots from `length pre` on were looked at.
  drop_slots-slots :
      (pre rest : List (Option Grant)) (peer : Peer) (peers : List Peer) (at : ℕ)
      → peer.slots ≡ pre ++ rest
      → at ≡ length pre
      → (Core.drop_slots matches rest at peer peers).peer.slots ≡ pre ++ map keep rest
  unfolding Core.drop_slots
  drop_slots-slots pre [] peer peers at e f = e
  drop_slots-slots pre (none ∷ rest) peer peers at e f =
      drop_slots-slots (pre ++ none ∷ []) rest peer peers (suc at)
        (e ∙ sym (append_assoc pre (none ∷ []) rest)) (next_index pre none at f)
      ∙ append_assoc pre (none ∷ []) (map keep rest)
  drop_slots-slots pre (some g ∷ rest) peer peers at e f = elim (Bool-cases (matches g)) [
    | inr no_ ↦
        rw (no_, Core.drop_slots)
          (drop_slots-slots (pre ++ some g ∷ []) rest peer peers (suc at)
              (e ∙ sym (append_assoc pre (some g ∷ []) rest)) (next_index pre (some g) at f)
            ∙ append_assoc pre (some g ∷ []) (map keep rest))
    | inl yes_ ↦
        rw (yes_, Core.drop_slots)
          (drop_slots-slots (pre ++ none ∷ []) rest (revoke at peer)
              (replace (revoke at peer) peers) (suc at) (revoke-slots pre rest g peer at e f)
              (next_index pre none at f)
            ∙ append_assoc pre (none ∷ []) (map keep rest))
  ]

  revoke-tag : (at : ℕ) (p : Peer) → (revoke at p).tag ≡ p.tag
  unfolding revoke
  revoke-tag at p = refl

  drop_slots-tag :
      (rest : List (Option Grant)) (at : ℕ) (peer : Peer) (peers : List Peer)
      → (Core.drop_slots matches rest at peer peers).peer.tag ≡ peer.tag
  unfolding Core.drop_slots revoke
  drop_slots-tag [] at peer peers = refl
  drop_slots-tag (none ∷ rest) at peer peers = drop_slots-tag rest (suc at) peer peers
  drop_slots-tag (some g ∷ rest) at peer peers = ground (
    arith,
    drop_slots-tag rest (suc at) peer peers,
    drop_slots-tag rest (suc at) (revoke at peer) (replace (revoke at peer) peers),
  )

  -- In the hub's list only that socket changes.
  drop_slots-peers :
      (rest : List (Option Grant)) (at : ℕ) (done todo : List Peer) (p : Peer)
      → IsFresh p.tag done
      → IsFresh p.tag todo
      → let cut = Core.drop_slots matches rest at p (done ++ p ∷ todo) in
        cut.peers ≡ done ++ cut.peer ∷ todo
  unfolding Core.drop_slots
  drop_slots-peers [] at done todo p h k = refl
  drop_slots-peers (none ∷ rest) at done todo p h k = drop_slots-peers rest (suc at) done todo p h k
  drop_slots-peers (some g ∷ rest) at done todo p h k = elim (Bool-cases (matches g)) [
    | inr no_ ↦ rw (no_, Core.drop_slots) (drop_slots-peers rest (suc at) done todo p h k)
    | inl yes_ ↦
        rw (yes_, Core.drop_slots, replace_middle done todo p (revoke at p) (revoke-tag at p) h k)
          (drop_slots-peers rest (suc at) done todo (revoke at p)
            (subst (λ t. IsFresh t done) (sym (revoke-tag at p)) h)
            (subst (λ t. IsFresh t todo) (sym (revoke-tag at p)) k))
  ]

  abbrev pub slots_of : List Peer → List (List (Option Grant))
  slots_of peers = map (λ p. p.slots) peers

  abbrev pub kept_slots : List Peer → List (List (Option Grant))
  kept_slots peers = map (λ p. map keep p.slots) peers

  drop_peers-slots :
      (todo done : List Peer)
      → HasUniqueTags (done ++ todo)
      → slots_of (Core.drop_peers matches todo (done ++ todo)).0 ≡ slots_of done ++ kept_slots todo
  unfolding Core.drop_peers
  drop_peers-slots [] done u = ap slots_of (append-nil done) ∙ sym (append-nil (slots_of done))
  drop_peers-slots (p ∷ todo) done u =
      let cut = Core.drop_slots matches p.slots 0 p (done ++ p ∷ todo) in
      let (before, after, rest) = HasUniqueTags-middle done todo p cut.peer u in
      let turn : (done ++ cut.peer ∷ []) ++ todo ≡ cut.peers =
        append_assoc done (cut.peer ∷ []) todo
        ∙ sym (drop_slots-peers p.slots 0 done todo p before after) in
      let unique : HasUniqueTags ((done ++ cut.peer ∷ []) ++ todo) =
        subst HasUniqueTags (sym (append_assoc done (cut.peer ∷ []) todo))
          (rest (drop_slots-tag p.slots 0 p (done ++ p ∷ todo))) in
      subst
        (λ ps.
          slots_of (Core.drop_peers matches todo ps).0 ≡ slots_of done ++ kept_slots (p ∷ todo))
        turn
        (drop_peers-slots todo (done ++ cut.peer ∷ []) unique
          ∙ ap (λ xs. xs ++ kept_slots todo) (map-append (λ q. q.slots) done (cut.peer ∷ []))
          ∙ append_assoc (slots_of done) (cut.peer.slots ∷ []) (kept_slots todo)
          ∙ ap (λ x. slots_of done ++ x ∷ kept_slots todo)
              (drop_slots-slots [] p.slots p (done ++ p ∷ todo) 0 refl refl))

  -- When no two sockets have one tag, `drop` nulls exactly the slots whose grant matches: every
  -- socket stays in its place, with its other slots as they were and none moved.
  pub drop-slots :
      (hub : Hub)
      → HasUniqueTags hub.peers
      → slots_of (Core.drop matches hub).0.peers ≡ kept_slots hub.peers
  unfolding Core.drop
  drop-slots hub u = drop_peers-slots hub.peers [] u

-- Once a channel is closed, when no two sockets have one tag and the store holds what its
-- specification does: exactly the channel's slots are null, a subscriber of any of its documents is
-- told of no log, and no document of it has moved. What the documents of another channel answer is
-- as it was, and so is where they moved.
pub close_channel-IsClosed :
    (hub : Hub) (a : Spec) (channel doc other other_doc : Text) (since : ℕ)
    → HasUniqueTags hub.peers
    → Tracks hub.store a
    → channel ≢ other
    → let left = (Core.close_channel channel hub).0 in
      (slots_of (λ g. same g.channel channel) left.peers
        ≡ kept_slots (λ g. same g.channel channel) hub.peers)
      × (Store.state channel doc since left.store
          ≡ record { head = 0; snapshot = none; deltas = []; log = [] })
      × ((Store.moved_to channel doc left.store).0 ≡ none)
      × (Store.state other other_doc since left.store ≡ Store.state other other_doc since hub.store)
      × ((Store.moved_to other other_doc left.store).0
          ≡ (Store.moved_to other other_doc hub.store).0)
unfolding Core.close_channel Core.drop
close_channel-IsClosed hub a channel doc other other_doc since u h apart = (
  drop-slots (λ g. same g.channel channel) hub u,
  state-purge channel doc since hub.store,
  moved_to-purge channel doc hub.store,
  state-purge_other channel other other_doc since hub.store apart,
  moved_to-purge_other channel other other_doc hub.store a h apart,
)
