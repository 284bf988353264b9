-- ===== src/Dscache/Tests.antt =====
-- Runs of the cache on small data.
use qri.Base.{
  ℕ, zero, ◌≡◌, refl, List, [], ◌∷◌, Bool, true, false, Str, str, map, ok, length, ◌<◌, ◌⊎◌, ◌++◌,
  Option, none, some,
}
use qri.Base.Int.{ℤ, pos}
use qri.Base.Reorder.{Reordered-refl}
use qri.Dsref.Ref.{Ref, empty_ref}
use qri.Logbook.Book.Defs.{
  dataset_name_init, dataset_commit_change, dataset_delete_all, DsChange, empty_change,
}
use qri.Dscache.Cache.{
  RefEntryInfo, Root, Dscache, convert_entry_to_version_info, cache_resolve_ref,
}
use qri.Dscache.Update.{
  EntryInfo, new_builder, add_user, add_with_indexes, add_ds_version_info, entry_ref,
  valid_profile_id, build, save_root, ref_at, copy_versions, copy_users, new_version, init_more,
  update_init_dataset, handler,
}
use qri.Dscache.Entries.{entry_of, changed, handler-entry_of}
use qri.Dscache.Init.{init_dataset-entries, cache_resolve_ref-committed}

abbrev in_order : (EntryInfo → EntryInfo → Bool) → List EntryInfo → List EntryInfo
in_order less es = es

abbrev entry : Str → Str → RefEntryInfo
entry id name = record {
  init_id = id;
  profile_id = str "p";
  top_index = pos 1;
  cursor_index = pos 1;
  pretty_name = name;
  meta_title = [];
  theme_list = [];
  body_size = pos 0;
  body_rows = pos 0;
  commit_time = pos 0;
  num_errors = pos 0;
  head_ref = [];
  fsi_path = [];
}

abbrev no_entry : List RefEntryInfo → ℕ → Option RefEntryInfo
no_entry refs i = none

abbrev writes : Str → Root → Bool
writes name root = false

-- A slot that holds a value keeps it where the new one is 0, which is not stored.
abbrev stored : ℤ → ℤ → ℤ
stored old (pos zero) = old
stored old new = new

abbrev two_entries : Root
two_entries = record {
  users = record { username = str "me"; profile_id = str "p" } ∷ [];
  refs = entry (str "i") (str "a") ∷ entry (str "j") (str "b") ∷ [];
}

abbrev cache : Option Root → Dscache
cache root = record {
  filename = [];
  root = root;
  create_new_enabled = true;
  default_username = str "me";
}

abbrev deletion : DsChange
deletion = record empty_change { init_id = str "i" }

abbrev naming : DsChange
naming = record empty_change {
  init_id = str "i";
  username = str "me";
  profile_id = str "QmZePf5LeXow3RW5U1AgEiNbW46YnRGhZ7HPvm1UmPFPwt";
  pretty_name = str "a";
}

abbrev committed : DsChange
committed = record empty_change { init_id = str "i"; top_index = 1; head_ref = str "/ipfs/x" }

abbrev roots : Option Dscache → List Root
roots none = []
roots (some d) = elim d.root [ none ↦ [] | some root ↦ root ∷ [] ]

-- Two users and one entry: the naming of a dataset reads behind the end.
reads_beyond :
    handler in_order no_entry writes stored dataset_name_init naming (
      cache (
        some (record {
          users = two_entries.users ++ two_entries.users;
          refs = entry (str "i") (str "a") ∷ [];
        })))
    ≡ none
unfolding handler update_init_dataset init_more copy_versions ref_at
reads_beyond = refl

-- One user with two datasets: the second is forgotten when a third is naming.
forgets_second :
    map
      (λ (r : Root). map (λ r. r.init_id) r.refs)
      (roots (
        handler in_order no_entry writes stored dataset_name_init naming
          (cache (some two_entries))))
    ≡ (str "i" ∷ str "i" ∷ []) ∷ []
unfolding handler update_init_dataset init_more copy_versions copy_users add_user add_with_indexes
    add_ds_version_info build save_root ref_at new_version entry_ref convert_entry_to_version_info
    new_builder
forgets_second = refl

handler-entry_of_example :
    (d' : Dscache) × (handler in_order no_entry writes stored dataset_delete_all deletion
        (cache (some two_entries))
      ≡ some d')
    × ((after : Root) × (d'.root ≡ some after)
        × (after.users ≡ two_entries.users)
        × ((id : Str)
            → entry_of id after.refs
              ≡ changed stored dataset_delete_all deletion id (entry_of id two_entries.refs)))
handler-entry_of_example =
    handler-entry_of in_order no_entry writes stored dataset_delete_all deletion two_entries
      (cache (some two_entries)) refl (λ e. cc) refl

init_dataset-entries_example :
    (handler in_order no_entry writes stored dataset_name_init naming (cache (some two_entries))
        ≡ none)
      × (2 < 1)
    ⊎ ((d' : Dscache) × (after : Root) × (handler in_order no_entry writes stored dataset_name_init
            naming
            (cache (some two_entries))
          ≡ some d')
        × (d'.root ≡ some after)
        × (length after.refs ≡ 2))
init_dataset-entries_example =
    init_dataset-entries in_order no_entry writes stored (λ less es. Reordered-refl es) naming
      two_entries (cache (some two_entries)) refl

abbrev me_a : Ref
me_a = record empty_ref { username = str "me"; name = str "a" }

naming_id-valid : valid_profile_id naming.profile_id ≡ true
unfolding valid_profile_id
naming_id-valid = refl

cache_resolve_ref-committed_example :
    (d1 : Dscache) × (d2 : Dscache) × (handler in_order no_entry writes stored dataset_name_init
        naming
        (cache none)
      ≡ some d1)
    × (handler in_order no_entry writes stored dataset_commit_change committed d1 ≡ some d2)
    × (cache_resolve_ref d2 me_a
        ≡ ok (record me_a {
          init_id = str "i";
          profile_id = naming.profile_id;
          path = str "/ipfs/x";
        }))
cache_resolve_ref-committed_example =
    cache_resolve_ref-committed in_order no_entry writes stored (λ less e. refl) naming committed
      (cache none) me_a refl refl naming_id-valid refl refl refl refl
