-- ===== src/Protocol/EFrame.antt =====
-- packages/protocol/src/frames.ts: `EFrame`, the first byte of a frame.
use obsync.Base.{ℕ}

abbrev pub sub : ℕ
sub = 1

abbrev pub unsub : ℕ
unsub = 2

abbrev pub update : ℕ
update = 3

abbrev pub awareness : ℕ
awareness = 4

abbrev pub snapshot : ℕ
snapshot = 5

abbrev pub rotate : ℕ
rotate = 6

abbrev pub signal : ℕ
signal = 7

abbrev pub seed : ℕ
seed = 8

abbrev pub state : ℕ
state = 16

abbrev pub fanout : ℕ
fanout = 17

abbrev pub echo : ℕ
echo = 18

abbrev pub peer : ℕ
peer = 19

abbrev pub join : ℕ
join = 20

abbrev pub leave : ℕ
leave = 21

abbrev pub moved : ℕ
moved = 22

abbrev pub revoked : ℕ
revoked = 23

abbrev pub refused : ℕ
refused = 24

abbrev pub here : ℕ
here = 25
