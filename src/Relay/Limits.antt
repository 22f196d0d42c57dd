-- ===== src/Relay/Limits.antt =====
-- packages/relay/src/hub/limits.ts. Tokens are counted in thousandths, which makes the refill of
-- `(now - at) / 1000 * perSecond` tokens a whole number. A clock that goes back refills below zero
-- in the source and nothing here; both are below one token, and the frame is dropped.
pub mod Bounds
use obsync.Base.{
  ℕ, ◌+◌, ◌-◌, ◌*◌, min, Bool, true, false, Option, none, some, ltb, leb, if◌then◌else◌, ℕ_discrete,
  List, [],
}
use obsync.Base.Dict
use obsync.Base.Dict.{Dict}
use obsync.Protocol.Frames.{ClientBody}

pub record Rate : Type 0 where
  pub per_second : ℕ
  pub burst : ℕ

abbrev pub frames_rate : Rate
frames_rate = record { per_second = 32; burst = 256 }

abbrev pub read_only_awareness : Rate
read_only_awareness = record { per_second = 20; burst = 40 }

abbrev pub max_read_only_awareness_bytes : ℕ
max_read_only_awareness_bytes = 4 * 1024

pub record Bucket : Type 0 where
  pub tokens : ℕ
  pub at : ℕ

abbrev pub Buckets : Type 0
Buckets = Dict ℕ Bucket

pub record FrameLimits : Type 0 where
  pub frames : Buckets
  pub awareness : Buckets

abbrev pub new_limits : FrameLimits
new_limits = record { frames = []; awareness = [] }

-- `buckets.get(tag) ?? { tokens: burst, at: now }`.
abbrev pub or_full : Option Bucket → Rate → ℕ → Bucket
or_full none rate now = record { tokens = 1000 * rate.burst; at = now }
or_full (some b) rate now = b

abbrev pub refill : Bucket → Rate → ℕ → ℕ
refill last rate now =
    min (1000 * rate.burst) (last.tokens + now * rate.per_second - last.at * rate.per_second)

-- The verdict of `take`, with the buckets after it.
unfoldable pub take : Buckets → ℕ → Rate → ℕ → Bool × Buckets
take buckets tag rate now =
    let tokens = refill (or_full (Dict.lookup ℕ_discrete tag buckets) rate now) rate now in
    if ltb tokens 1000
    then (false, buckets)
    else (true, Dict.insert ℕ_discrete tag (record { tokens = tokens - 1000; at = now }) buckets)

-- What follows once the frame itself has been paid for.
unfoldable pub allows_read_only : FrameLimits → ℕ → ClientBody → ℕ → ℕ → Bool × FrameLimits
allows_read_only l tag ClientBody.signal size now = (false, l)
allows_read_only l tag (ClientBody.awareness payload) size now =
    if leb size max_read_only_awareness_bytes
    then (let (ok, awareness) = take l.awareness tag read_only_awareness now in
        (ok, record l { awareness = awareness }))
    else (false, l)
allows_read_only l tag _ size now = (true, l)

unfoldable pub allows : FrameLimits → ℕ → ClientBody → Bool → ℕ → ℕ → Bool × FrameLimits
unfolding allows_read_only
allows l tag body read_only size now =
    let (ok, frames) = take l.frames tag frames_rate now in
    let paid = record l { frames = frames } in
    if ok
    then (if read_only then allows_read_only paid tag body size now else (true, paid))
    else (false, l)

unfoldable pub forget : FrameLimits → ℕ → FrameLimits
forget l tag = record {
  frames = Dict.erase ℕ_discrete tag l.frames;
  awareness = Dict.erase ℕ_discrete tag l.awareness;
}
