-- ===== src/Spaces/Partition.antt =====
-- packages/plugin/src/spaces/partition.ts, and `hasDotSegment` of packages/plugin/src/shared/path.ts.
pub mod Apart
use obsync.Base.{
  Bool, true, false, not, ◌&&◌, ◌||◌, Option, none, some, List, [], ◌∷◌, ◌++◌, Text, codes, same,
  starts_with, length, any, ◌==◌, if◌then◌else◌,
}
use obsync.Spaces.Space.{Space, vault_space, is_under}
use obsync.Spaces.Record.{ShareAccess, SpaceRecord, sort_by_id}

-- `includes`.
abbrev pub includes : Text → Text → Bool
includes p [] = starts_with p []
includes p (c ∷ s) = starts_with p (c ∷ s) || includes p s

abbrev pub has_dot_segment : Text → Bool
has_dot_segment path = starts_with (codes ".") path || includes (codes "/.") path

abbrev pub overlaps : Text → Space → Bool
overlaps root space =
    not (length space.root == 0) && (is_under root space.root || is_under space.root root)

unfoldable pub mount_error : Text → List Space → Option Text
mount_error root spaces =
    if length root == 0
    then some (codes "The vault itself cannot be shared.")
    else if has_dot_segment root
    then some (codes "Hidden folders cannot be shared.")
    else if any (overlaps root) spaces
    then some (codes "This folder is in a shared folder or holds one.")
    else none

abbrev is_read_only : ShareAccess → Bool
is_read_only (ShareAccess.owner location name relay_url) = false
is_read_only (ShareAccess.participant relay_url token participant_id person_name read_only) =
    read_only

abbrev pub mounted : (SpaceRecord → Bool) → SpaceRecord → Space
mounted is_paused r = record {
  id = r.id;
  root = r.root;
  read_only = is_read_only r.access;
  paused = is_paused r;
  gone_accepted = false;
}

abbrev pub is_free : Option Text → Bool
is_free none = true
is_free (some message) = false

-- The loop of `spacesOf`.
unfoldable pub mount_all : (SpaceRecord → Bool) → List SpaceRecord → List Space → List Space
unfolding mount_error
mount_all is_paused [] spaces = spaces
mount_all is_paused (r ∷ records) spaces =
    if r.closed || not (is_free (mount_error r.root spaces))
    then mount_all is_paused records spaces
    else mount_all is_paused records (spaces ++ mounted is_paused r ∷ [])

abbrev pub spaces_of : List SpaceRecord → (SpaceRecord → Bool) → List Space
spaces_of records is_paused = mount_all is_paused (sort_by_id records) (vault_space ∷ [])

pub data PauseKind : Type 0 where
  off : PauseKind
  everywhere : PauseKind
  here : PauseKind

unfoldable pub pause_of : SpaceRecord → Bool → List Text → Option PauseKind
pause_of r use_shared_folders paused_spaces =
    if not use_shared_folders
    then some PauseKind.off
    else if r.paused
    then some PauseKind.everywhere
    else if any (λ id. same id r.id) paused_spaces
    then some PauseKind.here
    else none
