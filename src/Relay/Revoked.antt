-- ===== src/Relay/Revoked.antt =====
-- packages/relay/src/hub/revoked.ts. The two tables are lists of their rows; the clock is an
-- argument.
pub mod History
use obsync.Base.{
  ℕ, ◌+◌, ◌*◌, Bool, true, false, not, ◌&&◌, ◌||◌, Option, none, some, List, [], ◌∷◌, ◌++◌, map,
  Text, same, any, filter, ltb, if◌then◌else◌,
}
use obsync.Relay.Peer.{Grant}

abbrev pub revoked_ms : ℕ
revoked_ms = 5 * 60000

-- A row of the table `revoked`.
pub record Row : Type 0 where
  pub fingerprint : Text
  pub until : ℕ

pub record RevokedGrants : Type 0 where
  pub revoked : List Row
  pub closed : List Text

abbrev pub new_revoked : RevokedGrants
new_revoked = record { revoked = []; closed = [] }

-- `WHERE fingerprint = ? AND until > ?`.
abbrev pub is_hit : Text → ℕ → Row → Bool
is_hit fingerprint now r = same r.fingerprint fingerprint && ltb now r.until

unfoldable pub has : Text → ℕ → RevokedGrants → Bool
has fingerprint now s = any (is_hit fingerprint now) s.revoked

unfoldable pub is_closed : Text → RevokedGrants → Bool
is_closed channel s = any (λ c. same c channel) s.closed

-- `INSERT OR IGNORE`.
unfoldable pub close_channel : Text → RevokedGrants → RevokedGrants
unfolding is_closed
close_channel channel s =
    if is_closed channel s then s else record s { closed = s.closed ++ channel ∷ [] }

-- The rows that run out are deleted, then `INSERT OR REPLACE`.
unfoldable pub add : Text → ℕ → RevokedGrants → RevokedGrants
add fingerprint now s =
    let left = filter (λ r. ltb now r.until) s.revoked in
    let others = filter (λ r. not (same r.fingerprint fingerprint)) left in
    record s {
      revoked = others ++ record { fingerprint = fingerprint; until = now + revoked_ms } ∷ [];
    }

unfoldable pub refuse_slot : ℕ → RevokedGrants → Option Grant → Option Grant
unfolding has is_closed
refuse_slot now s none = none
refuse_slot now s (some g) = if has g.grant now s || is_closed g.channel s then none else some g

unfoldable pub refuse : List (Option Grant) → ℕ → RevokedGrants → List (Option Grant)
unfolding refuse_slot
refuse slots now s = map (refuse_slot now s) slots
