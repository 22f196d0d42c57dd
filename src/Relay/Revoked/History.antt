-- ===== src/Relay/Revoked/History.antt =====
-- Which slots are refused after any history of revocations.
use obsync.Base.{
  ℕ, ◌+◌, ◌≤◌, ◌≡◌, refl, ap, ◌∙◌, Bool, false, not, ◌&&◌, ◌||◌, Option, none, some, List, [], ◌∷◌,
  ◌++◌, map, arith, Text, same, any, filter, ltb, if◌then◌else◌, All, All-append, All-filter,
}
use obsync.Relay.Peer.{Grant}
use obsync.Relay.Revoked.{
  Row, RevokedGrants, new_revoked, revoked_ms, is_hit, has, is_closed, close_channel, add, refuse,
  refuse_slot,
}

-- A token is revoked at a time, or a channel closed.
pub data Event : Type 0 where
  revokes : Text → ℕ → Event
  closes : Text → Event

abbrev step : Event → RevokedGrants → RevokedGrants
step (revokes fingerprint now) s = add fingerprint now s
step (closes channel) s = close_channel channel s

unfoldable pub run : List Event → RevokedGrants → RevokedGrants
run [] s = s
run (e ∷ events) s = run events (step e s)

-- The clock goes from `since` to `until`, and not back.
abbrev pub IsOrdered : ℕ → List Event → ℕ → Type 0
IsOrdered since [] until = since ≤ until
IsOrdered since (revokes fingerprint now ∷ events) until =
    (since ≤ now) × IsOrdered now events until
IsOrdered since (closes channel ∷ events) until = IsOrdered since events until

-- The event revoked the token less than five minutes before.
abbrev pub is_recent : Text → ℕ → Event → Bool
is_recent fingerprint now (revokes f at) = same f fingerprint && ltb now (at + revoked_ms)
is_recent fingerprint now (closes channel) = false

abbrev pub is_closing : Text → Event → Bool
is_closing channel (revokes f at) = false
is_closing channel (closes c) = same c channel

-- A slot with the grants that the events cut taken out.
abbrev pub expected : List Event → ℕ → Option Grant → Option Grant
expected events now none = none
expected events now (some g) =
    if any (is_recent g.grant now) events || any (is_closing g.channel) events then none else some g

any-append {ℓ} :
    {A : Type ℓ} (p : A → Bool) (xs ys : List A) → any p (xs ++ ys) ≡ (any p xs || any p ys)
any-append p [] ys = refl
any-append p (x ∷ xs) ys = ground (arith, any-append p xs ys)

-- Rows within reach of the clock.
abbrev IsWithin : ℕ → RevokedGrants → Type 0
IsWithin since s = All (λ (r : Row). r.until ≤ since + revoked_ms) s.revoked

rows_kept :
    (fingerprint : Text) (now at : ℕ) (rows : List Row)
    → at ≤ now
    → any (is_hit fingerprint now) (filter (λ r. ltb at r.until) rows)
      ≡ any (is_hit fingerprint now) rows
rows_kept fingerprint now at [] h = refl
rows_kept fingerprint now at (r ∷ rows) h = ground (arith, rows_kept fingerprint now at rows h)

rows_of_others :
    (fingerprint f : Text) (now : ℕ) (rows : List Row)
    → any (is_hit fingerprint now) (filter (λ r. not (same r.fingerprint f)) rows)
      ≡ (not (same f fingerprint) && any (is_hit fingerprint now) rows)
rows_of_others fingerprint f now [] = ground arith
rows_of_others fingerprint f now (r ∷ rows) = ground (arith, rows_of_others fingerprint f now rows)

rows_out :
    (fingerprint : Text) (now limit : ℕ) (rows : List Row)
    → All (λ (r : Row). r.until ≤ limit) rows
    → limit ≤ now
    → any (is_hit fingerprint now) rows ≡ false
rows_out fingerprint now limit [] h k = refl
rows_out fingerprint now limit (r ∷ rows) h k =
    ground (arith, rows_out fingerprint now limit rows h.1 k)

has-add :
    (fingerprint f : Text) (since at now : ℕ) (s : RevokedGrants)
    → IsWithin since s
    → since ≤ at
    → at ≤ now
    → has fingerprint now (add f at s)
      ≡ (is_recent fingerprint now (revokes f at) || has fingerprint now s)
unfolding has add
has-add fingerprint f since at now s w h k =
    let left = filter (λ (r : Row). ltb at r.until) s.revoked in
    let new : Row = record { fingerprint = f; until = at + revoked_ms } in
    any-append (is_hit fingerprint now) (filter (λ r. not (same r.fingerprint f)) left) (new ∷ [])
    ∙ (rw (rows_of_others fingerprint f now left, rows_kept fingerprint now at s.revoked k)
        (ground (arith, rows_out fingerprint now (since + revoked_ms) s.revoked w)))

IsWithin-later :
    (since at : ℕ) (rows : List Row)
    → since ≤ at
    → All (λ (r : Row). r.until ≤ since + revoked_ms) rows
    → All (λ (r : Row). r.until ≤ at + revoked_ms) rows
IsWithin-later since at [] h k = tt
IsWithin-later since at (r ∷ rows) h k = (omega (arith, k.0), IsWithin-later since at rows h k.1)

IsWithin-add :
    (f : Text) (since at : ℕ) (s : RevokedGrants)
    → since ≤ at
    → IsWithin since s
    → IsWithin at (add f at s)
unfolding add
IsWithin-add f since at s h w =
    let within = λ (r : Row). r.until ≤ at + revoked_ms in
    let left = filter (λ (r : Row). ltb at r.until) s.revoked in
    All-append within (filter (λ r. not (same r.fingerprint f)) left) _
      (All-filter within (λ r. not (same r.fingerprint f)) left
        (All-filter within (λ r. ltb at r.until) s.revoked (IsWithin-later since at s.revoked h w)))
      (omega arith, tt)

closed-add : (c f : Text) (at : ℕ) (s : RevokedGrants) → is_closed c (add f at s) ≡ is_closed c s
unfolding is_closed add
closed-add c f at s = refl

has-close : (f c : Text) (now : ℕ) (s : RevokedGrants) → has f now (close_channel c s) ≡ has f now s
unfolding has close_channel
has-close f c now s = ground arith

closed-close :
    (c d : Text) (s : RevokedGrants) → is_closed c (close_channel d s) ≡ (same d c || is_closed c s)
unfolding is_closed close_channel
closed-close c d s = ground (arith, any-append (λ x. same x c) s.closed (d ∷ []))

IsWithin-close :
    (since : ℕ) (c : Text) (s : RevokedGrants)
    → IsWithin since s
    → IsWithin since (close_channel c s)
unfolding close_channel
IsWithin-close since c s h = ground arith

until_le : (since until : ℕ) (events : List Event) → IsOrdered since events until → since ≤ until
until_le since until [] h = h
until_le since until (revokes f at ∷ events) h = omega (arith, until_le at until events h.1)
until_le since until (closes c ∷ events) h = until_le since until events h

has-run :
    (f : Text) (since now : ℕ) (events : List Event) (s : RevokedGrants)
    → IsWithin since s
    → IsOrdered since events now
    → has f now (run events s) ≡ (any (is_recent f now) events || has f now s)
unfolding run
has-run f since now [] s w h = refl
has-run f since now (revokes g at ∷ events) s w h =
    has-run f at now events (add g at s) (IsWithin-add g since at s h.0 w) h.1
    ∙ (rw (has-add f g since at now s w h.0 (until_le at now events h.1)) (ground arith))
has-run f since now (closes c ∷ events) s w h =
    has-run f since now events (close_channel c s) (IsWithin-close since c s w) h
    ∙ (rw (has-close f c now s) (ground arith))

closed-run :
    (c : Text) (events : List Event) (s : RevokedGrants)
    → is_closed c (run events s) ≡ (any (is_closing c) events || is_closed c s)
unfolding run
closed-run c [] s = refl
closed-run c (revokes g at ∷ events) s =
    closed-run c events (add g at s) ∙ (rw (closed-add c g at s) (ground arith))
closed-run c (closes d ∷ events) s =
    closed-run c events (close_channel d s) ∙ (rw (closed-close c d s) (ground arith))

refuse_from :
    (slots : List (Option Grant)) (events : List Event) (now : ℕ)
    → IsOrdered 0 events now
    → map (refuse_slot now (run events new_revoked)) slots ≡ map (expected events now) slots
unfolding refuse_slot has is_closed
refuse_from [] events now h = refl
refuse_from (none ∷ slots) events now h = ap (◌∷◌ none) (refuse_from slots events now h)
refuse_from (some g ∷ slots) events now h = rw (refuse_from slots events now h) (
    ground (
      arith,
      has-run g.grant 0 now events new_revoked tt h,
      closed-run g.channel events new_revoked,
    ))

-- After any history of revocations and closed channels, under a clock that does not go back, an
-- admission loses exactly the slots whose token was revoked within the last five minutes or whose
-- channel was closed at any time; every other slot is as it was.
pub refuse-run :
    (slots : List (Option Grant)) (events : List Event) (now : ℕ)
    → IsOrdered 0 events now
    → refuse slots now (run events new_revoked) ≡ map (expected events now) slots
unfolding refuse
refuse-run slots events now h = refuse_from slots events now h
