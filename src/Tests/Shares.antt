-- ===== src/Tests/Shares.antt =====
-- Shared folders of two devices.
use mathlib.Core.List.{Memᴰ}
use obsync.Base.{
  ℕ, ◌≡◌, refl, inl, inr, Bool, true, false, none, some, List, [], ◌∷◌, arith, Text, codes,
  text_dec, ℕ_discrete,
}
use obsync.Base.Dict
use obsync.Base.Keys.{IsUnique}
use obsync.Sync.Types.{EFileKind, ManifestEntry, Manifest}
use obsync.Spaces.Space.{vault_space, is_under, space_of}
use obsync.Spaces.Record.{
  ShareAccess, SpaceRecord, is_newer, keep_newest, newest_by_id, merge_records, close_record, flat,
}
use obsync.Spaces.Record.Newest.{record_of}
use obsync.Spaces.Record.Converging.{IsCoherent, merge_records_converges, close_record-wins}
use obsync.Spaces.Partition.{mount_error, mount_all, spaces_of, mounted}
use obsync.Spaces.Partition.Apart.{space_of_unique}
use obsync.Spaces.Paths.{manifest_to_vault, manifest_to_space, ◌>>=◌}
use obsync.Spaces.Paths.RoundTrip.{manifest_to_vault-to_space}

abbrev share : Text → Text → ℕ → Text → SpaceRecord
share id root rev author = record {
  id = id;
  name = codes "Team";
  root = root;
  rev = rev;
  author = author;
  key = codes "k";
  access = ShareAccess.participant (codes "r") (codes "t") (codes "p") (codes "Ann") false;
  closed = false;
  paused = false;
}

abbrev ours : SpaceRecord
ours = share (codes "s") (codes "team") 1 (codes "pc")

abbrev theirs : SpaceRecord
theirs = share (codes "s") (codes "work") 2 (codes "phone")

abbrev one_way : List (List SpaceRecord)
one_way = (ours ∷ []) ∷ (theirs ∷ []) ∷ []

abbrev other_way : List (List SpaceRecord)
other_way = (theirs ∷ ours ∷ []) ∷ (ours ∷ []) ∷ []

merged : merge_records one_way ≡ theirs ∷ []
unfolding merge_records newest_by_id keep_newest is_newer Dict.lookup Dict.insert text_dec
    ℕ_discrete
merged = refl

coherent : IsCoherent (flat one_way)
unfolding text_dec ℕ_discrete
coherent = ((inr refl, (inl refl, tt)), ((inl refl, (inr refl, tt)), tt))

merge_records_converges_example :
    record_of (codes "s") (merge_records one_way) ≡ record_of (codes "s") (merge_records other_way)
merge_records_converges_example =
    merge_records_converges (codes "s") one_way other_way coherent
      (Memᴰ.tail (Memᴰ.head refl), (Memᴰ.head refl, tt))
      (Memᴰ.tail (Memᴰ.head refl), (Memᴰ.head refl, (Memᴰ.head refl, tt)))

abbrev closing : List (List SpaceRecord)
closing = (close_record ours (codes "pc") ∷ []) ∷ (theirs ∷ []) ∷ []

close_record-wins_example :
    record_of (codes "s") (merge_records closing) ≡ some (close_record ours (codes "pc"))
close_record-wins_example =
    close_record-wins ours (codes "pc") closing (Memᴰ.head refl)
      (inr (inl refl), (inr (inr (omega arith)), tt))

abbrev nobody : SpaceRecord → Bool
nobody r = false

-- A second share inside the first stays out.
abbrev nested : List SpaceRecord
nested = ours ∷ share (codes "t") (codes "team/sub") 1 (codes "pc") ∷ []

mounted_spaces : spaces_of nested nobody ≡ vault_space ∷ mounted nobody ours ∷ []
unfolding mount_all mount_error is_under text_dec ℕ_discrete
mounted_spaces = refl

ours_mounted : Memᴰ (mounted nobody ours) (spaces_of nested nobody)
unfolding mount_all mount_error is_under text_dec ℕ_discrete
ours_mounted = Memᴰ.tail (Memᴰ.head refl)

note_inside : is_under (codes "team/sub/note") (codes "team") ≡ true
unfolding is_under text_dec ℕ_discrete
note_inside = refl

space_of_unique_example :
    space_of (spaces_of nested nobody) (codes "team/sub/note") ≡ mounted nobody ours
space_of_unique_example =
    space_of_unique nested nobody (mounted nobody ours) (codes "team/sub/note") ours_mounted
      (omega arith) note_inside

abbrev note : ManifestEntry
note = record {
  hash = codes "1";
  size = 1;
  mtime = 2;
  kind = EFileKind.vault;
  live = none;
  by = none;
  scene = none;
}

abbrev manifest : Manifest
manifest = record {
  version = 1;
  vault_id = codes "v";
  snapshot_id = codes "n";
  parent_snapshot_id = none;
  created_at = 3;
  device_id = codes "pc";
  device_name = none;
  files = (codes "a", note) ∷ (codes "b/c", note) ∷ [];
  folders = some (codes "x" ∷ []);
  reset_generations = none;
  authors = none;
}

manifest-IsUnique : IsUnique manifest.files
unfolding Dict.lookup text_dec ℕ_discrete
manifest-IsUnique = (refl, (refl, tt))

manifest_to_vault-to_space_example :
    (manifest_to_vault manifest (codes "team") >>= λ v. manifest_to_space v (codes "team"))
    ≡ some manifest
manifest_to_vault-to_space_example =
    manifest_to_vault-to_space manifest (codes "team") manifest-IsUnique
