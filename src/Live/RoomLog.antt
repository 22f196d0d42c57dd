-- ===== src/Live/RoomLog.antt =====
-- packages/plugin/src/live/session/room-log.ts.
use obsync.Base.{
  ℕ, ◌-◌, max, Bool, true, false, not, ◌&&◌, ◌||◌, Option, none, some, Text, same, length, ltb, leb,
  ◌==◌, if◌then◌else◌,
}
use obsync.Relay.Store.{DocState}

abbrev pub compact_after : ℕ
compact_after = 200

pub record RoomLog : Type 0 where
  pub seq : ℕ
  pub compacted : ℕ
  pub name : Option Text
  pub left : Option (ℕ × Text)
  pub known_seq : ℕ

abbrev pub new_room_log : ℕ → RoomLog
new_room_log known_seq = record {
  seq = 0;
  compacted = 0;
  name = none;
  left = none;
  known_seq = known_seq;
}

abbrev pub is_other_name : Option Text → Text → Bool
is_other_name none log = false
is_other_name (some name) log = not (same log name)

-- The frame `State` carries what the store's `state` answers.
unfoldable pub lost : DocState → RoomLog → Bool
lost f l =
    (not (length f.log == 0) && is_other_name l.name f.log) || ltb f.head (max l.seq l.known_seq)

abbrev pub is_leaving : RoomLog → Bool
is_leaving l = elim l.left [ none ↦ false | some left ↦ true ]

abbrev pub asked_again : DocState → RoomLog → Bool
asked_again f l = elim l.left [ none ↦ false | some left ↦ left.0 == f.head && same left.1 f.log ]

abbrev pub leave : DocState → RoomLog → RoomLog
leave f l = record l { left = some (f.head, f.log) }

abbrev pub forget_leaving : RoomLog → RoomLog
forget_leaving l = record l { left = none }

abbrev has_snapshot : DocState → Bool
has_snapshot f = elim f.snapshot [ none ↦ false | some b ↦ true ]

-- The deltas of a frame are no more than its head.
unfoldable pub reached : DocState → RoomLog → RoomLog
reached f l = record l {
  name = if length f.log == 0 then l.name else some f.log;
  compacted = if has_snapshot f || l.seq == 0 then f.head - length f.deltas else l.compacted;
  seq = f.head;
}

unfoldable pub is_compaction_due : RoomLog → Bool
is_compaction_due l = leb compact_after (l.seq - l.compacted)

unfoldable pub compacted_now : RoomLog → ℕ × RoomLog
compacted_now l = (l.seq, record l { compacted = l.seq })
