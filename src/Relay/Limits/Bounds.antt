-- ===== src/Relay/Limits/Bounds.antt =====
-- How many frames the limits let through.
use obsync.Base.{
  ℕ, suc, ◌+◌, ◌-◌, ◌*◌, ◌≤◌, ◌<◌, ◌≡◌, ◌≢◌, refl, Bool, true, false, Option, none, some, List, [],
  ◌∷◌, arith, if◌then◌else◌, ℕ_discrete, inl, inr, ite, if_pos, if_neg, ◌⊎◌,
}
use obsync.Base.Dict
use obsync.Protocol.Frames.{ClientBody}
use obsync.Relay.Limits.{
  Rate, Bucket, Buckets, FrameLimits, new_limits, frames_rate, or_full, refill, take, allows,
  allows_read_only,
}

-- A frame as it reaches the limits.
pub record Arrival : Type 0 where
  pub tag : ℕ
  pub body : ClientBody
  pub read_only : Bool
  pub size : ℕ
  pub now : ℕ

-- The arrivals of `tag` that are let through.
unfoldable pub passed : ℕ → FrameLimits → List Arrival → ℕ
passed tag l [] = 0
passed tag l (a ∷ arrivals) =
    let (ok, l') = allows l a.tag a.body a.read_only a.size a.now in
    let rest = passed tag l' arrivals in
    ite (ℕ_discrete a.tag tag) (if ok then suc rest else rest) rest

-- The clock does not go back, from `since` on and up to `until`.
abbrev pub IsOrdered : ℕ → ℕ → List Arrival → Type 0
IsOrdered since until [] = since ≤ until
IsOrdered since until (a ∷ arrivals) = (since ≤ a.now) × IsOrdered a.now until arrivals

until_le :
    (since until : ℕ) (arrivals : List Arrival) → IsOrdered since until arrivals → since ≤ until
until_le since until [] h = h
until_le since until (a ∷ arrivals) h = omega (arith, until_le a.now until arrivals h.1)

take-other :
    (buckets : Buckets) (tag other : ℕ) (rate : Rate) (now : ℕ)
    → other ≢ tag
    → Dict.lookup ℕ_discrete tag (take buckets other rate now).1
      ≡ Dict.lookup ℕ_discrete tag buckets
unfolding take
take-other buckets tag other rate now n =
    let last = or_full (Dict.lookup ℕ_discrete other buckets) rate now in
    let left : Bucket = record { tokens = refill last rate now - 1000; at = now } in
    ground (arith, Dict.lookup-insert ℕ_discrete tag other left buckets)

-- A frame is refused for lack of a token, with no change, or pays one.
take_cases :
    (buckets : Buckets) (tag : ℕ) (rate : Rate) (now : ℕ)
    → let tokens = refill (or_full (Dict.lookup ℕ_discrete tag buckets) rate now) rate now in
      ((tokens < 1000) × (take buckets tag rate now ≡ (false, buckets)))
      ⊎ ((1000 ≤ tokens)
          × ((take buckets tag rate now).0 ≡ true)
          × (Dict.lookup ℕ_discrete tag (take buckets tag rate now).1
              ≡ some (record { tokens = tokens - 1000; at = now })))
unfolding take
take_cases buckets tag rate now =
    let last = or_full (Dict.lookup ℕ_discrete tag buckets) rate now in
    let left : Bucket = record { tokens = refill last rate now - 1000; at = now } in
    ground (arith, Dict.lookup-insert ℕ_discrete tag tag left buckets)

allows_read_only-frames :
    (l : FrameLimits) (tag : ℕ) (body : ClientBody) (size now : ℕ)
    → (allows_read_only l tag body size now).1.frames ≡ l.frames
unfolding allows_read_only
allows_read_only-frames l tag (ClientBody.awareness payload) size now = ground arith
allows_read_only-frames l tag _ size now = refl

allows-frames :
    (l : FrameLimits) (tag : ℕ) (body : ClientBody) (read_only : Bool) (size now : ℕ)
    → ((allows l tag body read_only size now).1.frames ≡ (take l.frames tag frames_rate now).1)
      × ((allows l tag body read_only size now).0 ≡ true
          → (take l.frames tag frames_rate now).0 ≡ true)
unfolding allows
allows-frames l tag body read_only size now =
    let paid = record l { frames = (take l.frames tag frames_rate now).1 } in
    ground (
      arith,
      take_cases l.frames tag frames_rate now,
      allows_read_only-frames paid tag body size now,
    )

spend_later :
    (o : Option Bucket) (since now until n : ℕ)
    → since ≤ now
    → 1000 * n + 32 * (or_full o frames_rate now).at
      ≤ (or_full o frames_rate now).tokens + 32 * until
    → 1000 * n + 32 * (or_full o frames_rate since).at
      ≤ (or_full o frames_rate since).tokens + 32 * until
spend_later none since now until n h k = omega arith
spend_later (some b) since now until n h k = k

spend_one :
    (o : Option Bucket) (since now until n : ℕ)
    → since ≤ now
    → (or_full o frames_rate since).at ≤ since
    → let tokens = refill (or_full o frames_rate now) frames_rate now in
      1000 ≤ tokens
      → 1000 * n + 32 * now ≤ tokens - 1000 + 32 * until
      → 1000 * suc n + 32 * (or_full o frames_rate since).at
        ≤ (or_full o frames_rate since).tokens + 32 * until
spend_one none since now until n h a p k = omega arith
spend_one (some b) since now until n h a p k = omega arith

abbrev lookup_frames : ℕ → FrameLimits → Option Bucket
lookup_frames tag l = Dict.lookup ℕ_discrete tag l.frames

abbrev after : FrameLimits → Arrival → Bool × FrameLimits
after l a = allows l a.tag a.body a.read_only a.size a.now

-- What an arrival does to the bucket of `tag`.
step_other :
    (tag : ℕ) (l : FrameLimits) (a : Arrival)
    → a.tag ≢ tag
    → lookup_frames tag (after l a).1 ≡ lookup_frames tag l
step_other tag l a n =
    rw (allows-frames l a.tag a.body a.read_only a.size a.now).0
      (take-other l.frames tag a.tag frames_rate a.now n)

step_same :
    (tag : ℕ) (l : FrameLimits) (a : Arrival)
    → a.tag ≡ tag
    → let tokens = refill (or_full (lookup_frames tag l) frames_rate a.now) frames_rate a.now in
      (((after l a).0 ≡ false) × (lookup_frames tag (after l a).1 ≡ lookup_frames tag l))
      ⊎ ((1000 ≤ tokens)
          × (lookup_frames tag (after l a).1
              ≡ some (record { tokens = tokens - 1000; at = a.now })))
step_same tag l a e =
    let (same_frames, paid) = allows-frames l a.tag a.body a.read_only a.size a.now in
    rw (← e, same_frames) (ground (arith, take_cases l.frames a.tag frames_rate a.now))

or_full-at :
    (o : Option Bucket) (since now : ℕ)
    → since ≤ now
    → (or_full o frames_rate since).at ≤ since
    → (or_full o frames_rate now).at ≤ now
or_full-at none since now h k = omega arith
or_full-at (some b) since now h k = omega arith

-- The induction step, from the frames that pass after the first.
spend_step :
    (o o' : Option Bucket) (ok : Bool) (since now until n : ℕ)
    → let tokens = refill (or_full o frames_rate now) frames_rate now in
      ((ok ≡ false) × (o' ≡ o))
        ⊎ ((1000 ≤ tokens) × (o' ≡ some (record { tokens = tokens - 1000; at = now })))
      → since ≤ now
      → (or_full o frames_rate since).at ≤ since
      → ((or_full o' frames_rate now).at ≤ now
          → 1000 * n + 32 * (or_full o' frames_rate now).at
            ≤ (or_full o' frames_rate now).tokens + 32 * until)
      → 1000 * (if ok then suc n else n) + 32 * (or_full o frames_rate since).at
        ≤ (or_full o frames_rate since).tokens + 32 * until
spend_step o o' ok since now until n (inl (no_token, e)) h k ih =
    rw no_token (spend_later o since now until n h ((rw e at ih) (or_full-at o since now h k)))
spend_step o o' false since now until n (inr (p, e)) h k ih =
    omega (arith, spend_one o since now until n h k p ((rw e at ih) (omega arith)))
spend_step o o' true since now until n (inr (p, e)) h k ih =
    spend_one o since now until n h k p ((rw e at ih) (omega arith))

passed-le_from :
    (tag : ℕ) (arrivals : List Arrival) (l : FrameLimits) (since until : ℕ)
    → IsOrdered since until arrivals
    → (or_full (lookup_frames tag l) frames_rate since).at ≤ since
    → 1000 * passed tag l arrivals + 32 * (or_full (lookup_frames tag l) frames_rate since).at
      ≤ (or_full (lookup_frames tag l) frames_rate since).tokens + 32 * until
unfolding passed
passed-le_from tag [] l since until h k = omega arith
passed-le_from tag (a ∷ arrivals) l since until h k =
    let ih = passed-le_from tag arrivals (after l a).1 a.now until h.1 in
    elim (ℕ_discrete a.tag tag) [
      | no n ↦ rw (if_neg _ n) (
          spend_later (lookup_frames tag l) since a.now until _ h.0 (
            (rw (step_other tag l a n) at ih) (or_full-at (lookup_frames tag l) since a.now h.0 k)))
      | yes e ↦ rw (if_pos _ e) (
          spend_step (lookup_frames tag l) (lookup_frames tag (after l a).1) (after l a).0 since
            a.now until _ (step_same tag l a e) h.0 k ih)
    ]

-- From a fresh start, in any mix of sockets and under a clock that does not go back, the frames of
-- one socket that pass between two times are at most the burst and what refills between them.
pub passed-le :
    (tag : ℕ) (arrivals : List Arrival) (since until : ℕ)
    → IsOrdered since until arrivals
    → 1000 * passed tag new_limits arrivals
      ≤ 1000 * frames_rate.burst + frames_rate.per_second * (until - since)
unfolding Dict.lookup
passed-le tag arrivals since until h = omega (
  arith,
  until_le since until arrivals h,
  passed-le_from tag arrivals new_limits since until h (omega arith),
)
