-- ===== src/Dscache/Cache.antt =====
-- The cache as the lists that its flatbuffer holds, and the lookups in it. A number is stored with
-- the width of its slot; fields that no builder sets are not kept.
use qri.Base.{
  List, [], ◌∷◌, Bool, true, false, ◌&&◌, Str, str_eq, ◌-◌, Result, ok, err, panic, is_empty, ltb,
  ◌==◌, if◌then◌else◌, ◌+◌, Option, none, some,
}
use qri.Base.Int.{ℤ, pos, negsuc}
use Prim.Native.Nat.{◌*◌, ◌/◌, ◌%◌}
use qri.Dsref.Ref.{Ref, VersionInfo, empty_info}

pub record UserAssoc : Type 0 where
  pub username : Str
  pub profile_id : Str

pub record RefEntryInfo : Type 0 where
  pub init_id : Str
  pub profile_id : Str
  pub top_index : ℤ
  pub cursor_index : ℤ
  pub pretty_name : Str
  pub meta_title : Str
  pub theme_list : Str
  pub body_size : ℤ
  pub body_rows : ℤ
  pub commit_time : ℤ
  pub num_errors : ℤ
  pub head_ref : Str
  pub fsi_path : Str

-- The flatbuffer's root table.
pub record Root : Type 0 where
  pub users : List UserAssoc
  pub refs : List RefEntryInfo

pub record Dscache : Type 0 where
  pub filename : Str
  pub root : Option Root
  pub create_new_enabled : Bool
  pub default_username : Str

pub data DscacheError : Type 0 where
  no_dscache invalid_profile_id ref_not_found save_failed : DscacheError
  unknown_username : Str → DscacheError
  dataset_not_found : Str → Str → DscacheError

-- `IsEmpty`, of a cache that is not nil.
unfoldable pub cache_is_empty : Dscache → Bool
cache_is_empty d = elim d.root [ none ↦ true | some r ↦ false ]

-- `time.Time{}.Unix()`
abbrev pub zero_time : ℤ
zero_time = negsuc 62135596799

-- `time.Time.Unix`: whole seconds, rounded down.
unfoldable pub unix : Option ℤ → ℤ
unix none = zero_time
unix (some (pos n)) = pos (n / 1000000000)
unix (some (negsuc n)) = negsuc (n / 1000000000)

-- `time.Unix(s, 0)`
unfoldable pub from_unix : ℤ → Option ℤ
from_unix (pos n) = some (pos (n * 1000000000))
from_unix (negsuc n) = if n == 62135596799 then none else some (negsuc ((n + 1) * 1000000000 - 1))

-- The conversion `int32(n)` of an `int`.
unfoldable pub int32 : ℤ → ℤ
int32 (pos n) =
    let low = n % 4294967296 in if ltb low 2147483648 then pos low else negsuc (4294967295 - low)
int32 (negsuc n) =
    let low = n % 4294967296 in if ltb low 2147483648 then negsuc low else pos (4294967295 - low)

unfoldable pub convert_entry_to_version_info : RefEntryInfo → VersionInfo
convert_entry_to_version_info r = record empty_info {
  init_id = r.init_id;
  profile_id = r.profile_id;
  name = r.pretty_name;
  path = r.head_ref;
  meta_title = r.meta_title;
  theme_list = r.theme_list;
  body_size = r.body_size;
  body_rows = r.body_rows;
  num_errors = r.num_errors;
  commit_time = from_unix r.commit_time;
  fsi_path = r.fsi_path;
}

-- The first loop of `LookupByName`: the profile id of the user, or that of the reference.
unfoldable pub profile_of : Ref → List UserAssoc → Str
profile_of ref [] = ref.profile_id
profile_of ref (u ∷ us) =
    let later = profile_of ref us in if str_eq ref.username u.username then u.profile_id else later

-- The second loop.
unfoldable pub lookup_ref : Str → Str → List RefEntryInfo → Option VersionInfo
lookup_ref profile_id name [] = none
lookup_ref profile_id name (r ∷ rs) =
    let later = lookup_ref profile_id name rs in
    if str_eq r.profile_id profile_id && str_eq r.pretty_name name
    then some (convert_entry_to_version_info r)
    else later

abbrev pub found_or_error : Ref → Option VersionInfo → Result DscacheError VersionInfo
found_or_error ref none = err (dataset_not_found ref.username ref.name)
found_or_error ref (some info) = ok info

unfoldable pub lookup_by_name : Root → Ref → Result DscacheError VersionInfo
lookup_by_name root ref =
    let profile_id = profile_of ref root.users in
    if is_empty profile_id
    then err (unknown_username ref.username)
    else found_or_error ref (lookup_ref profile_id ref.name root.refs)

abbrev pub completed : Ref → Result DscacheError VersionInfo → Result DscacheError Ref
completed ref (ok info) = ok (record ref {
  init_id = info.init_id;
  profile_id = info.profile_id;
  path = if is_empty ref.path then info.path else ref.path;
})
completed ref (err e) = err ref_not_found
completed ref panic = panic

-- `ResolveRef`, whose source is always empty: the reference that is left in `ref`.
unfoldable pub cache_resolve_ref : Dscache → Ref → Result DscacheError Ref
cache_resolve_ref d ref = elim d.root [
  | none ↦ err ref_not_found
  | some root ↦ completed ref (lookup_by_name root ref)
]
