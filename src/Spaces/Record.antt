-- ===== src/Spaces/Record.antt =====
-- packages/plugin/src/spaces/record.ts, and `acceptInvite` of packages/plugin/src/spaces/invite.ts
-- with `renameOwner` of packages/plugin/src/spaces/owner.ts. An optional `true` is a Bool.
pub mod Order
pub mod Newest
pub mod Latest
pub mod Converging
use obsync.Base.{
  ℕ, zero, suc, ◌+◌, Bool, true, false, not, ◌&&◌, ◌||◌, Option, none, some, List, [], ◌∷◌, ◌++◌,
  map, Text, codes, text_dec, length, ltb, ◌==◌, if◌then◌else◌,
}
use obsync.Base.Dict
use obsync.Base.Dict.{Dict}
use obsync.Sync.Moves.{values}

pub record ShareLocation : Type 0 where
  pub endpoint : Text
  pub region : Text
  pub bucket : Text
  pub prefix : Text
  pub force_path_style : Bool

pub data ShareAccess : Type 0 where
  owner : ShareLocation → Option Text → Option Text → ShareAccess
  participant : Text → Text → Text → Text → Bool → ShareAccess

pub record SpaceRecord : Type 0 where
  pub id : Text
  pub name : Text
  pub root : Text
  pub rev : ℕ
  pub author : Text
  pub key : Text
  pub access : ShareAccess
  pub closed : Bool
  pub paused : Bool

-- `<` on strings, by code units.
abbrev pub text_lt : Text → Text → Bool
text_lt [] [] = false
text_lt [] (d ∷ t) = true
text_lt (c ∷ s) [] = false
text_lt (c ∷ s) (d ∷ t) = ltb c d || (c == d && text_lt s t)

unfoldable pub is_newer : SpaceRecord → SpaceRecord → Bool
is_newer a b = if not (a.rev == b.rev) then ltb b.rev a.rev else text_lt b.author a.author

abbrev pub close_rev_step : ℕ
close_rev_step = 1000000

unfoldable pub close_record : SpaceRecord → Text → SpaceRecord
close_record r author = record r { rev = r.rev + close_rev_step; author = author; closed = true }

abbrev pub or_text : Text → Text → Text
or_text [] d = d
or_text (c ∷ s) d = c ∷ s

abbrev pub name_or : Option Text → Text → Text
name_or none d = d
name_or (some s) d = or_text s d

-- `OWNER` is "owner" (packages/protocol/src/shares.ts).
unfoldable pub share_identity : SpaceRecord → Text × Text
share_identity r = elim r.access [
  | ShareAccess.participant relay_url token participant_id person_name read_only ↦
      (participant_id, or_text person_name (codes "Participant"))
  | ShareAccess.owner location name relay_url ↦ (codes "owner", name_or name (codes "Owner"))
]

-- The body of the loop of `mergeRecords`.
unfoldable pub keep_newest : SpaceRecord → Dict Text SpaceRecord → Dict Text SpaceRecord
unfolding is_newer
keep_newest r by_id = elim (Dict.lookup text_dec r.id by_id) [
  | none ↦ Dict.insert text_dec r.id r by_id
  | some known ↦ if is_newer r known then Dict.insert text_dec r.id r by_id else by_id
]

unfoldable pub newest_by_id : List SpaceRecord → Dict Text SpaceRecord → Dict Text SpaceRecord
unfolding keep_newest
newest_by_id [] by_id = by_id
newest_by_id (r ∷ records) by_id = newest_by_id records (keep_newest r by_id)

-- `sort((a, b) => (a.id < b.id ? -1 : 1))`, stable: a record goes after those with its id.
abbrev pub insert_by_id : SpaceRecord → List SpaceRecord → List SpaceRecord
insert_by_id r [] = r ∷ []
insert_by_id r (s ∷ records) =
    if text_lt r.id s.id then r ∷ s ∷ records else s ∷ insert_by_id r records

abbrev pub sort_onto : List SpaceRecord → List SpaceRecord → List SpaceRecord
sort_onto [] sorted = sorted
sort_onto (r ∷ records) sorted = sort_onto records (insert_by_id r sorted)

abbrev pub sort_by_id : List SpaceRecord → List SpaceRecord
sort_by_id records = sort_onto records []

abbrev pub flat {ℓ} : {A : Type ℓ} → List (List A) → List A
flat [] = []
flat (xs ∷ lists) = xs ++ flat lists

unfoldable pub merge_records : List (List SpaceRecord) → List SpaceRecord
unfolding newest_by_id
merge_records lists = sort_by_id (values (newest_by_id (flat lists) []))

pub record Invite : Type 0 where
  pub id : Text
  pub name : Text
  pub key : Text
  pub relay_url : Text
  pub token : Text
  pub participant_id : Text
  pub person_name : Text
  pub read_only : Bool

abbrev pub invite_access : Invite → ShareAccess
invite_access i =
    ShareAccess.participant i.relay_url i.token i.participant_id i.person_name i.read_only

abbrev rev_of : Option SpaceRecord → ℕ
rev_of none = 0
rev_of (some r) = r.rev

unfoldable pub accept_invite : Invite → Text → Text → Option SpaceRecord → SpaceRecord
accept_invite i root author previous = record {
  id = i.id;
  name = i.name;
  root = root;
  rev = rev_of previous + 1;
  author = author;
  key = i.key;
  access = invite_access i;
  closed = false;
  paused = false;
}

-- The body of the loop of `renameOwner`: `closed` shares and those of others stay.
unfoldable pub rename_owned : Text → Text → SpaceRecord → SpaceRecord
rename_owned name author r = elim r.access [
  | ShareAccess.participant relay_url token participant_id person_name read_only ↦ r
  | ShareAccess.owner location old relay_url ↦ if r.closed then r else record r {
    rev = r.rev + 1;
    author = author;
    access = ShareAccess.owner location (some name) relay_url;
  }
]

abbrev pub rename_owner : List SpaceRecord → Text → Text → List SpaceRecord
rename_owner records name author = map (rename_owned name author) records
