-- ===== src/Dscache/Update.antt =====
-- What the cache does on the events of the logbook. Parameters stand for `sort.Slice`, for the entry
-- that `Refs` reads behind the end of the list, for the file that is written, and for what a
-- numeric slot of a flatbuffer holds when a second value is added to it.
use qri.Base.{
  ℕ, zero, List, [], ◌∷◌, ◌++◌, Bool, not, ◌&&◌, ◌||◌, Str, str_eq, map, drop, length, is_empty,
  any, ◌==◌, if◌then◌else◌, suc, Option, none, some,
}
use qri.Base.{str_less}
use qri.Base.Int.{ℤ, pos}
use qri.Dsref.Ref.{VersionInfo, empty_info}
use qri.Logbook.Book.Defs.{
  EventType, dataset_name_init, dataset_commit_change, dataset_delete_all, dataset_rename,
  dataset_create_link, DsChange,
}
use qri.Dscache.Cache.{
  UserAssoc, RefEntryInfo, Root, Dscache, DscacheError, no_dscache, invalid_profile_id, save_failed,
  unix, int32, convert_entry_to_version_info,
}

pub record EntryInfo : Type 0 where
  pub version : VersionInfo
  pub top_index : ℤ
  pub cursor_index : ℤ

pub record Builder : Type 0 where
  pub users : List UserAssoc
  pub infos : List EntryInfo

unfoldable pub new_builder : Builder
new_builder = record { users = []; infos = [] }

unfoldable pub add_user : Str → Str → Builder → Builder
add_user username profile_id b = record b {
  users = b.users ++ record { username = username; profile_id = profile_id } ∷ [];
}

-- `AddDsVersionInfoWithIndexes`
unfoldable pub add_with_indexes : VersionInfo → ℤ → ℤ → Builder → Builder
add_with_indexes ver top cursor b = record b {
  infos = b.infos ++ record { version = ver; top_index = top; cursor_index = cursor } ∷ [];
}

unfoldable pub add_ds_version_info : VersionInfo → Builder → Builder
add_ds_version_info ver = add_with_indexes ver (pos 0) (pos 0)

-- The user name that a profile id has in `userMap`: the last one that was put in.
unfoldable pub user_map : Str → List UserAssoc → Str
user_map profile_id [] = []
user_map profile_id (u ∷ us) =
    let later = user_map profile_id us in
    if str_eq u.profile_id profile_id && not (any (λ v. str_eq v.profile_id profile_id) us)
    then u.username
    else later

abbrev pub sort_key : List UserAssoc → EntryInfo → Str
sort_key users e = user_map e.version.profile_id users ++ b'/' ∷ e.version.name

unfoldable pub entry_ref : EntryInfo → RefEntryInfo
entry_ref e = record {
  init_id = e.version.init_id;
  profile_id = e.version.profile_id;
  top_index = int32 e.top_index;
  cursor_index = int32 e.cursor_index;
  pretty_name = e.version.name;
  meta_title = e.version.meta_title;
  theme_list = e.version.theme_list;
  body_size = e.version.body_size;
  body_rows = int32 e.version.body_rows;
  commit_time = unix e.version.commit_time;
  num_errors = int32 e.version.num_errors;
  head_ref = e.version.path;
  fsi_path = e.version.fsi_path;
}

unfoldable pub valid_profile_id : Str → Bool
valid_profile_id profile_id = length profile_id == 46

-- `copyReferenceListWithReplacement`: every entry that matches is replaced.
unfoldable pub copy_with_replacement :
    (RefEntryInfo → Bool) → (RefEntryInfo → RefEntryInfo) → List RefEntryInfo → List RefEntryInfo
copy_with_replacement match replace [] = []
copy_with_replacement match replace (r ∷ rs) =
    (if match r then replace r else r) ∷ copy_with_replacement match replace rs

-- The same with a nil function: every entry that matches is left out.
unfoldable pub copy_without : (RefEntryInfo → Bool) → List RefEntryInfo → List RefEntryInfo
copy_without match [] = []
copy_without match (r ∷ rs) =
    let later = copy_without match rs in if match r then later else r ∷ later

abbrev pub has_init_id : DsChange → RefEntryInfo → Bool
has_init_id act r = str_eq r.init_id act.init_id

-- The match of `updateCreateLink`.
unfoldable pub matches_link : Str → DsChange → RefEntryInfo → Bool
matches_link default_username act r =
    if is_empty act.init_id
    then str_eq default_username act.username && str_eq r.pretty_name act.pretty_name
    else has_init_id act r

unfoldable pub set_link : DsChange → RefEntryInfo → RefEntryInfo
set_link act r = record r { fsi_path = act.dir }

module _ (set_slot : ℤ → ℤ → ℤ) where
  -- The part of the replacement that `act.Info` gives.
  unfoldable pub set_info : Option VersionInfo → RefEntryInfo → RefEntryInfo
  set_info none r = r
  set_info (some v) r = record r {
    meta_title = v.meta_title;
    commit_time = set_slot r.commit_time (unix v.commit_time);
    body_size = set_slot r.body_size v.body_size;
    body_rows = set_slot r.body_rows (int32 v.body_rows);
    num_errors = set_slot r.num_errors (int32 v.num_errors);
  }

  unfoldable pub set_cursor : DsChange → RefEntryInfo → RefEntryInfo
  set_cursor act r = record (set_info act.info r) {
    top_index = set_slot r.top_index (int32 (pos act.top_index));
    cursor_index = set_slot r.cursor_index (int32 (pos act.top_index));
    head_ref = act.head_ref;
  }

abbrev pub first_or : Option RefEntryInfo → List RefEntryInfo → Option RefEntryInfo
first_or o [] = o
first_or o (r ∷ rs) = some r

abbrev pub with_ref : (RefEntryInfo → Option Builder) → Option RefEntryInfo → Option Builder
with_ref next none = none
with_ref next (some r) = next r

module _ (sort_slice : (EntryInfo → EntryInfo → Bool) → List EntryInfo → List EntryInfo)
    (beyond : List RefEntryInfo → ℕ → Option RefEntryInfo) (write_fails : Str → Root → Bool)
    (set_slot : ℤ → ℤ → ℤ) where
  -- `Build`, which is `buildDscacheFlatbuffer` where no file name is set.
  unfoldable pub build : Builder → Root
  build b = record {
    users = b.users;
    refs =
        map entry_ref
          (sort_slice (λ l r. str_less (sort_key b.users l) (sort_key b.users r)) b.infos);
  }

  unfoldable pub save_root : Root → Dscache → Dscache × Option DscacheError
  save_root root d =
      let saved = record d { root = some root } in
      (
        saved,
        if is_empty d.filename || not (write_fails d.filename root) then none else some save_failed,
      )

  -- `d.Root.Refs(&r, i)`: behind the end of the list it reads other bytes, or panics (`none`).
  unfoldable pub ref_at : List RefEntryInfo → ℕ → Option RefEntryInfo
  ref_at refs i = first_or (beyond refs i) (drop i refs)

  -- The loop that copies the versions, from index `i` on, for `n` more rounds.
  unfoldable pub copy_versions : List RefEntryInfo → ℕ → ℕ → Builder → Option Builder
  copy_versions refs i zero b = some b
  copy_versions refs i (suc n) b =
      with_ref
        (λ r.
          copy_versions refs (suc i) n
            (add_with_indexes (convert_entry_to_version_info r) r.top_index r.cursor_index b))
        (ref_at refs i)

  unfoldable pub copy_users : List UserAssoc → Builder → Builder
  copy_users [] b = b
  copy_users (u ∷ us) b = copy_users us (add_user u.username u.profile_id b)

  unfoldable pub new_version : DsChange → VersionInfo
  new_version act = record empty_info {
    init_id = act.init_id;
    profile_id = act.profile_id;
    name = act.pretty_name;
  }

  -- `updateInitDataset` on an empty cache. The error of `Assign` is left out, as the source does.
  unfoldable pub init_empty : DsChange → Dscache → Dscache × Option DscacheError
  init_empty act d =
      let built = build (
        add_ds_version_info (new_version act) (add_user act.username act.profile_id new_builder)) in
      if not d.create_new_enabled
      then (d, none)
      else if not (valid_profile_id act.profile_id)
      then (d, some invalid_profile_id)
      else ((save_root built d).0, none)

  abbrev pub with_copied :
      DsChange → Dscache → Option Builder → Option (Dscache × Option DscacheError)
  with_copied act d none = none
  with_copied act d (some copied) =
      some ((save_root (build (add_ds_version_info (new_version act) copied)) d).0, none)

  -- The same on the users and entries of a cache.
  unfoldable pub init_more : DsChange → Root → Dscache → Option (Dscache × Option DscacheError)
  init_more act root d =
      with_copied act d
        (copy_versions root.refs 0 (length root.users) (copy_users root.users new_builder))

  -- `none` is a panic.
  unfoldable pub update_init_dataset : DsChange → Dscache → Option (Dscache × Option DscacheError)
  update_init_dataset act d = elim d.root [
    | none ↦ some (init_empty act d)
    | some root ↦ init_more act root d
  ]

  -- The three updates that copy the users and change the entries.
  unfoldable pub update_refs :
      (List RefEntryInfo → List RefEntryInfo) → Dscache → Dscache × Option DscacheError
  update_refs change d = elim d.root [
    | none ↦ (d, some no_dscache)
    | some root ↦ save_root (record root { refs = change root.refs }) d
  ]

  unfoldable pub update_change_cursor : DsChange → Dscache → Dscache × Option DscacheError
  update_change_cursor act =
      update_refs (copy_with_replacement (has_init_id act) (set_cursor set_slot act))

  unfoldable pub update_delete_dataset : DsChange → Dscache → Dscache × Option DscacheError
  update_delete_dataset act = update_refs (copy_without (has_init_id act))

  unfoldable pub update_create_link : DsChange → Dscache → Dscache × Option DscacheError
  update_create_link act d =
      update_refs (copy_with_replacement (matches_link d.default_username act) (set_link act)) d

  abbrev pub without_error : Option (Dscache × Option DscacheError) → Option Dscache
  without_error none = none
  without_error (some (d, e)) = some d

  -- `handler`, on an event whose payload is a change: an error is only logged, a panic is `none`.
  unfoldable pub handler : EventType → DsChange → Dscache → Option Dscache
  handler dataset_name_init act d = without_error (update_init_dataset act d)
  handler dataset_commit_change act d = some (update_change_cursor act d).0
  handler dataset_delete_all act d = some (update_delete_dataset act d).0
  handler dataset_rename act d = some d
  handler dataset_create_link act d = some (update_create_link act d).0
