-- ===== src/Spaces/Space.antt =====
-- packages/plugin/src/sync/space.ts. An optional `true` is a Bool.
pub mod Owner
use obsync.Base.{
  ℕ, zero, suc, ◌+◌, Bool, true, false, not, ◌&&◌, ◌||◌, Option, none, some, List, [], ◌∷◌, ◌++◌,
  map, Text, codes, text_dec, same, starts_with, length, drop, filter, any, ltb, ◌==◌,
  if◌then◌else◌, ite,
}
use obsync.Base.Dict
use obsync.Base.Dict.{Dict}
use obsync.Sync.Types.{Files, entry_at, keys}

pub record Space : Type 0 where
  pub id : Text
  pub root : Text
  pub read_only : Bool
  pub paused : Bool
  pub gone_accepted : Bool

abbrev pub vault_space : Space
vault_space = record {
  id = codes "vault";
  root = [];
  read_only = false;
  paused = false;
  gone_accepted = false;
}

-- `${root}/`.
abbrev pub slash : Text → Text
slash root = root ++ 47 ∷ []

unfoldable pub is_under : Text → Text → Bool
is_under path root = length root == 0 || (same path root || starts_with (slash root) path)

-- The loop of `spaceOf`.
unfoldable pub owner_from : Space → List Space → Text → Space
owner_from owner [] path = owner
owner_from owner (space ∷ spaces) path =
    if is_under path space.root && ltb (length owner.root) (length space.root)
    then owner_from space spaces path
    else owner_from owner spaces path

abbrev pub space_of : List Space → Text → Space
space_of spaces path = owner_from vault_space spaces path

-- `Map<Space, string[]>`: `spaceOf` answers the first space of a root, so that a root names the key.
abbrev pub SpaceGroups : Type 0
SpaceGroups = List (Space × List Text)

unfoldable pub add_to_group : Space → Text → SpaceGroups → SpaceGroups
add_to_group space path [] = (space, path ∷ []) ∷ []
add_to_group space path ((other, paths) ∷ groups) =
    if same other.root space.root
    then (other, paths ++ path ∷ []) ∷ groups
    else (other, paths) ∷ add_to_group space path groups

unfoldable pub group_paths : List Space → List Text → SpaceGroups → SpaceGroups
unfolding add_to_group
group_paths spaces [] groups = groups
group_paths spaces (path ∷ paths) groups =
    group_paths spaces paths (add_to_group (space_of spaces path) path groups)

abbrev pub paths_by_space : List Space → List Text → SpaceGroups
paths_by_space spaces paths = group_paths spaces paths []

abbrev pub nested_roots : List Space → Space → List Text
nested_roots spaces space =
    map (λ other. other.root)
      (filter (λ other. not (same other.root space.root) && is_under other.root space.root) spaces)

abbrev pub inside_of : Text → Text → Text
inside_of root path = if length root == 0 then path else drop (length root + 1) path

abbrev pub vault_path_of : Text → Text → Text
vault_path_of root inside = if length root == 0 then inside else slash root ++ inside

-- `path in files`: what Object.prototype adds to that is no path of a baseline.
abbrev pub is_held : Files → List Text → Text → Bool
is_held files skipped path = elim (entry_at files path) [
  | none ↦ any (λ p. same p path) skipped
  | some e ↦ true
]

-- `assertSpacePresent`: false where it throws a `SpaceGoneError`.
abbrev pub is_space_present : Space → Files → List Text → Files → Bool
is_space_present space files skipped baseline =
    let known = filter (λ path. is_under path space.root) (keys baseline) in
    same space.root []
    || space.gone_accepted
    || (length known == 0 || any (is_held files skipped) known)
