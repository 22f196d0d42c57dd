-- ===== src/Lib.antt =====
-- Verification of MDSync: an editor plugin that synchronises encrypted notes, and the relay
-- through which open documents are edited together. Modelled are the wire protocol that both
-- sides share, the relay's hub, and of the plugin how the vault, the remote and the last state
-- they shared are compared, how shared folders divide the vault, how two versions of a text are
-- merged against their base, and how an open document is kept in step with its room.
--
-- The relay admits a socket to channels, one per slot. A socket sends frames; the hub decodes
-- each, checks the slot's grant and the rate, and either forwards it on the channel or hands it
-- to the live documents, which keep one log per document in a SQL store and tell the followers of
-- the document. A grant can be dropped, and a channel closed, which deletes its logs.
--
-- - Base: shared names, tests into Bool, lists over the native numbers, texts as lists of UTF-16
--   code units, association lists for `Map` (Base.Dict, and Base.Keys where every key stands
--   once) and decimal numerals (Base.Decimal).
-- - Protocol.Bytes: `Writer` and `Reader` of packages/protocol/src/bytes.ts. A thrown error is
--   `none`; a reader is what is still unread. Protocol.Bytes.Laws joins the two.
-- - Protocol.EFrame, Protocol.Frames: packages/protocol/src/frames.ts. A frame is its slot, its
--   document and a body with a constructor for each type.
-- - Protocol.Codec: packages/protocol/src/codec.ts, `CLIENT`, `SERVER`, `encode`, `decode` and
--   `withSlot`. Written gives the bytes without the writer, from what one call adds (Extends);
--   Client and Server are about the two directions.
-- - Relay.Limits: packages/relay/src/hub/limits.ts, `FrameLimits`, with Bounds on what passes.
-- - Relay.Store: packages/relay/src/hub/store.ts, `SqlDocStore`. The two tables are functions of
--   channel and document. Spec is the abstract view (a log of updates and a pointer per document,
--   with no snapshots, numbers or cache); Contiguous, Log, Refines, Appending, Folding,
--   Simulation, Cache, Tracking and History relate the store to it; Snapshots, with
--   Snapshots.Kept, is about what its snapshots stand for, Reader about what a reader is given,
--   Purge about closed channels.
-- - Relay.Peer: packages/relay/src/hub/peer.ts, and the changes of a socket that `peerOver` of
--   packages/relay/src/hub/durable-object.ts makes.
-- - Relay.Delivery: packages/relay/src/hub/frames.ts, the frames that the hub builds and to whom
--   they go.
-- - Relay.Documents: packages/relay/src/hub/docs.ts, `Documents` and `leaveDocs`. Writes is about
--   the store, Reaching and Isolation about who is told.
-- - Relay.Core: packages/relay/src/hub/core.ts, `HubCore`. Guards is about what bytes cannot do,
--   Revocation about dropped grants and closed channels.
-- - Relay.Revoked: packages/relay/src/hub/revoked.ts, `RevokedGrants`; History is about any
--   sequence of revocations.
-- - Sync.Types: packages/plugin/src/sync/types.ts.
-- - Sync.Diff: packages/plugin/src/sync/diff.ts. Sound and Safety are about the paths on its
--   lists, Paths about those that it goes over, Kept and Complete about those that changed.
-- - Sync.Pairing, Sync.Moves: packages/plugin/src/sync/moves.ts, `pairUp` with what it uses, and
--   `pairMoves` and `withMoves`. Pairing.Groups is about `groupBy`, Pairing.Pairs about `pairUp`,
--   Moves.Paths about sets of paths, Moves.Whole about `withMoves`.
-- - Sync.Baseline: packages/plugin/src/sync/baseline.ts and config-reset.ts. Advance is about the
--   files of the baseline, Folders about empty folders.
-- - Sync.History: packages/plugin/src/sync/history/changes.ts and replay.ts; Changes is about the
--   lists of a snapshot's changes, Undo about undoing them, Replay about a whole log.
--   Sync.History.Publish: the change that a push makes to the log, in publish.ts and store.ts
--   there; Published is about a run of pushes. Sync.History.Garbage: gc.ts there, with
--   `updateHistoryLog` of store.ts; Hashes is about sets of hashes, Sweep about what is deleted.
-- - Spaces.Space, Spaces.Partition, Spaces.Paths: packages/plugin/src/sync/space.ts,
--   packages/plugin/src/spaces/partition.ts and packages/plugin/src/sync/space-paths.ts.
--   Space.Owner is about folders that hold one path, Partition.Apart about the mounted shares,
--   Paths.RoundTrip about manifests below a root.
-- - Spaces.Record: packages/plugin/src/spaces/record.ts, `acceptInvite` of invite.ts and
--   `renameOwner` of owner.ts beside it. Order is about revisions, Newest about what the merge
--   answers, Latest about the search for the newest, Converging about merges of the same records.
-- - Live.Outbox, Live.RoomLog: packages/plugin/src/live/session/outbox.ts and room-log.ts.
--   Outbox.Held and Outbox.Kept are about what each operation holds and lets go of.
-- - Live.Session: packages/plugin/src/live/session/session.ts, `LiveSession`; Steps has its
--   handlers that wait and its events. Kept and Lossless are about each handler, Histories about
--   any sequence of events, Settling about the way to rest.
-- - Merge.Hunks, Merge.Anchored: packages/plugin/src/sync/anchored-hunks.ts. Hunks.Patch is about
--   the hunks of an edit script.
-- - Merge.Regions, Merge.Build, Merge.Plans, Merge.Whole:
--   packages/plugin/src/sync/merge-model.ts: the regions of a merge, the session that starts from
--   them, the edits that take a side in and out, and the whole from three texts, with the text
--   part of conflict-merge.ts. Regions.Groups, Ordered and Covered are about the regions,
--   Build.Statuses about a new session, Plans.Edits about an edit, and Merge.Clean about a merge
--   with one side left as it was.
-- - Tests: runs and the results at concrete data, with ASCII as the text coding.
--
-- State is passed explicitly. An operation of the hub returns the state after it and a list of
-- effects: the frames sent and the sockets closed, in order. Sockets that the source mutates in
-- place are changed in the hub's list, where a socket is found by its tag; tags are drawn at
-- random from 32 bits, and results that need them distinct say so.
--
-- Frames in effects are kept as they are before `encodeServer`. The clock is an argument, and so
-- is the name that SQLite draws for a new log. `TextEncoder` and `TextDecoder` belong to the
-- platform: they are the record TextCoding, a parameter, with the laws that decoding inverts
-- encoding of well-formed text and that decoded text encodes to the same bytes. Numbers are
-- natural; bytes and 32-bit fields keep their wrap-around, `% 256` and the four big-endian
-- digits. Tokens of the limits are counted in thousandths, where the source has floating-point
-- tokens. All recursion is structural, but for three loops on fuel: decimal numerals, whose fuel
-- is the number itself, which has at least as many units as digits; the grouping of hunks, which
-- takes one at least a turn and has their number; and the binary search of an anchor, which
-- narrows a range and has its width.
--
-- An async method of a session is one function for each stretch between two awaits; since one
-- queue runs them, a history is a list of events. `Y.mergeUpdates` is a parameter, and results on
-- it assume that a merge has the content of its parts. A drain that a view staged is a number,
-- with a parameter for the updates that it makes the document report.
--
-- What the storage answers while garbage is collected is a record of values, one for each time
-- that it is asked, so that what other devices do between two reads is any value; a storage that
-- throws before the sweep ends it with nothing deleted.
--
-- Clients make the snapshots that the store keeps, and the store never reads them: what updates a
-- snapshot stands for is a parameter, a relation of bytes and lists of updates, and the result
-- that uses it assumes that the clients' snapshots stood for what they claimed.
--
-- `diffArrays` is a parameter that answers an edit script, or nothing past its budget.
--
-- Records by path are association lists in the order of their keys; the source enumerates keys
-- that read as array indices first, which changes the order of the lists alone. A scope policy is
-- a record of the functions that the source calls.
--
-- Not modelled: the acceptance of web sockets, their attachments and alarms in durable-object.ts,
-- the share broker, share tokens and their cryptography, the counting of changes for display, the
-- Y document and its bindings to the editor, the peers' cursors, and the plugin's scanning,
-- storage and user interface.
pub mod Base
pub mod Live
pub mod Merge
pub mod Protocol
pub mod Relay
pub mod Spaces
pub mod Sync
pub mod Tests
