-- ===== src/Dscache/Init.antt =====
-- Naming a dataset: on an empty cache it can be found afterwards, on a cache that is not empty the
-- copy goes by the number of users.
use qri.Base.{
  ℕ, zero, ◌≡◌, refl, List, [], ◌∷◌, Bool, true, false, Str, map, str_eq_refl, ok, length, is_empty,
  arith, suc, drop, ◌<◌, ◌≤◌, ◌⊎◌, inl, inr, subst, ◌+◌, ap, sym, ◌∙◌, Option, none, some,
  length-append, length-map,
}
use qri.Base.Int.{ℤ, pos}
use qri.Base.Reorder.{Reordered, length-Reordered}
use qri.Dsref.Ref.{Ref, VersionInfo}
use qri.Logbook.Book.Defs.{dataset_name_init, dataset_commit_change, DsChange}
use qri.Dscache.Cache.{
  UserAssoc, RefEntryInfo, Root, Dscache, convert_entry_to_version_info, profile_of, lookup_ref,
  lookup_by_name, cache_resolve_ref,
}
use qri.Dscache.Update.{
  EntryInfo, Builder, new_builder, add_user, add_with_indexes, add_ds_version_info, entry_ref,
  valid_profile_id, copy_with_replacement, set_info, set_cursor, build, save_root, copy_versions,
  first_or, with_ref, ref_at, with_copied, without_error, copy_users, new_version, init_empty,
  init_more, update_init_dataset, update_refs, update_change_cursor, handler,
}

-- A cache of one user and one entry.
abbrev single : UserAssoc → RefEntryInfo → Root
single u r = record { users = u ∷ []; refs = r ∷ [] }

present_id : (s : Str) → valid_profile_id s ≡ true → is_empty s ≡ false
unfolding valid_profile_id
present_id [] v = cc
present_id (c ∷ cs) v = refl

cache_resolve_ref-single :
    (d : Dscache) (u : UserAssoc) (r : RefEntryInfo) (ref : Ref)
    → d.root ≡ some (single u r)
    → ref.username ≡ u.username
    → is_empty u.profile_id ≡ false
    → r.profile_id ≡ u.profile_id
    → r.pretty_name ≡ ref.name
    → is_empty ref.path ≡ true
    → cache_resolve_ref d ref
      ≡ ok (record ref { init_id = r.init_id; profile_id = r.profile_id; path = r.head_ref })
unfolding cache_resolve_ref lookup_by_name profile_of lookup_ref convert_entry_to_version_info
cache_resolve_ref-single d u r ref e n v i k p =
    rw (e, n, str_eq_refl u.username, v, i, str_eq_refl u.profile_id, k, str_eq_refl ref.name, p)
      refl

-- Only behind the end there is no entry.
no_first :
    (o : Option RefEntryInfo) (i : ℕ) (refs : List RefEntryInfo)
    → first_or o (drop i refs) ≡ none
    → length refs ≤ i
no_first o i [] e = omega arith
no_first o zero (r ∷ rs) e = cc
no_first o (suc i) (r ∷ rs) e = omega (arith, no_first o i rs e)

-- Copying ends with so many entries, or panics where the list is shorter.
abbrev Copied : ℕ → ℕ → Option Builder → Type 0
Copied size upto o =
    (o ≡ none) × (size < upto) ⊎ ((b' : Builder) × (o ≡ some b') × (length b'.infos ≡ upto))

with_ref-Copied :
    (size upto : ℕ) (next : RefEntryInfo → Option Builder) (o : Option RefEntryInfo)
    → (o ≡ none → size < upto)
    → ((r : RefEntryInfo) → Copied size upto (next r))
    → Copied size upto (with_ref next o)
with_ref-Copied size upto next none h k = inl (refl, h refl)
with_ref-Copied size upto next (some r) h k = k r

module _ (set_slot : ℤ → ℤ → ℤ) where
  set_info-keeps :
      (o : Option VersionInfo) (r : RefEntryInfo)
      → ((set_info set_slot o r).init_id ≡ r.init_id)
        × ((set_info set_slot o r).profile_id ≡ r.profile_id)
        × ((set_info set_slot o r).pretty_name ≡ r.pretty_name)
  unfolding set_info
  set_info-keeps none r = (refl, refl, refl)
  set_info-keeps (some v) r = (refl, refl, refl)

  -- A new head leaves the ids and the name.
  set_cursor-keeps :
      (act : DsChange) (r : RefEntryInfo)
      → ((set_cursor set_slot act r).init_id ≡ r.init_id)
        × ((set_cursor set_slot act r).profile_id ≡ r.profile_id)
        × ((set_cursor set_slot act r).pretty_name ≡ r.pretty_name)
        × ((set_cursor set_slot act r).head_ref ≡ act.head_ref)
  unfolding set_cursor
  set_cursor-keeps act r = let (i, p, n) = set_info-keeps act.info r in (i, p, n, refl)

module _ (sort_slice : (EntryInfo → EntryInfo → Bool) → List EntryInfo → List EntryInfo)
    (beyond : List RefEntryInfo → ℕ → Option RefEntryInfo) (write_fails : Str → Root → Bool)
    (set_slot : ℤ → ℤ → ℤ) where
  ref_at-short :
      (refs : List RefEntryInfo) (i n : ℕ)
      → ref_at sort_slice beyond write_fails set_slot refs i ≡ none
      → length refs < n + suc i
  unfolding ref_at
  ref_at-short refs i n e = omega (arith, no_first (beyond refs i) i refs e)

  added-infos :
      (r : RefEntryInfo) (i : ℕ) (b : Builder)
      → length b.infos ≡ i
      → length
          (add_with_indexes (convert_entry_to_version_info r) r.top_index r.cursor_index b).infos
        ≡ suc i
  unfolding add_with_indexes
  added-infos r i b h = omega (arith, h, length-append b.infos _)

  copy_versions-Copied :
      (refs : List RefEntryInfo) (i n : ℕ) (b : Builder)
      → length b.infos ≡ i
      → Copied
          (length refs)
          (n + i)
          (copy_versions sort_slice beyond write_fails set_slot refs i n b)
  unfolding copy_versions add_with_indexes
  copy_versions-Copied refs i zero b h = inr (b, refl, omega (arith, h))
  copy_versions-Copied refs i (suc n) b h =
      subst
        (λ k.
          Copied (length refs) k
            (copy_versions sort_slice beyond write_fails set_slot refs i (suc n) b))
        (omega arith)
        (with_ref-Copied (length refs) (n + suc i) _
          (ref_at sort_slice beyond write_fails set_slot refs i) (ref_at-short refs i n)
          (λ r. copy_versions-Copied refs (suc i) n _ (added-infos r i b h)))

  copy_users-infos :
      (us : List UserAssoc) (b : Builder)
      → (copy_users sort_slice beyond write_fails set_slot us b).infos ≡ b.infos
  unfolding copy_users add_user
  copy_users-infos [] b = refl
  copy_users-infos (u ∷ us) b = copy_users-infos us _

  new_builder-infos : length new_builder.infos ≡ 0
  unfolding new_builder
  new_builder-infos = refl

  init_more-entries :
      ((less : EntryInfo → EntryInfo → Bool) (es : List EntryInfo)
        → Reordered (sort_slice less es) es)
      → (act : DsChange) (d : Dscache) (n : ℕ) (b : Builder) → length b.infos ≡ n
      → (d' : Dscache) × (after : Root) × (without_error sort_slice beyond write_fails set_slot
            (with_copied sort_slice beyond write_fails set_slot act d (some b))
          ≡ some d')
        × (d'.root ≡ some after)
        × (length after.refs ≡ n + 1)
  unfolding save_root build add_ds_version_info add_with_indexes
  init_more-entries sorts act d n b h = (
    _,
    _,
    refl,
    refl,
    length-map entry_ref _
        ∙ length-Reordered (sorts _ _)
        ∙ length-append b.infos _
        ∙ ap (λ k. k + 1) h,
  )

  -- If sorting only reorders the entries, the naming of a dataset in a cache that is not empty either
  -- panics, which happens only if the cache has fewer entries than users, or it leaves one entry
  -- more than the cache has users, however many entries there were.
  pub init_dataset-entries :
      ((less : EntryInfo → EntryInfo → Bool) (es : List EntryInfo)
        → Reordered (sort_slice less es) es)
      → (act : DsChange) (root : Root) (d : Dscache) → d.root ≡ some root
      → (handler sort_slice beyond write_fails set_slot dataset_name_init act d ≡ none)
          × (length root.refs < length root.users)
        ⊎ ((d' : Dscache) × (after : Root) × (handler sort_slice beyond write_fails set_slot
                dataset_name_init act d
              ≡ some d')
            × (d'.root ≡ some after)
            × (length after.refs ≡ length root.users + 1))
  unfolding handler update_init_dataset init_more
  init_dataset-entries sorts act root d e =
      let b = copy_users sort_slice beyond write_fails set_slot root.users new_builder in
      rw e
        (elim (copy_versions-Copied root.refs 0 (length root.users) b
          (ap length (copy_users-infos root.users new_builder) ∙ new_builder-infos)) [
            | inl (f, short) ↦ rw f (inl (refl, omega (arith, short)))
            | inr (b', f, n) ↦ rw f (
                inr (
                  init_more-entries sorts act (record d { root = some root }) (length root.users) b'
                    (omega (arith, n))))
          ])

  -- The user and the entry that the naming of a dataset puts into an empty cache.
  abbrev new_user : DsChange → UserAssoc
  new_user act = record { username = act.username; profile_id = act.profile_id }

  unfoldable new_entry : DsChange → RefEntryInfo
  new_entry act = entry_ref (record {
    version = new_version sort_slice beyond write_fails set_slot act;
    top_index = pos 0;
    cursor_index = pos 0;
  })

  init_empty_lem :
      ((less : EntryInfo → EntryInfo → Bool) (e : EntryInfo) → sort_slice less (e ∷ []) ≡ e ∷ [])
      → (act : DsChange) (d : Dscache) → d.create_new_enabled ≡ true
      → valid_profile_id act.profile_id ≡ true
      → (init_empty sort_slice beyond write_fails set_slot act d).0.root
        ≡ some (single (new_user act) (new_entry act))
  unfolding init_empty save_root build add_ds_version_info add_with_indexes new_builder add_user
      new_entry
  init_empty_lem sorts act d c v =
      rw (c, v)
        (ap (λ es. some (record { users = new_user act ∷ []; refs = map entry_ref es }))
          (sorts _ _))

  init_dataset-empty :
      ((less : EntryInfo → EntryInfo → Bool) (e : EntryInfo) → sort_slice less (e ∷ []) ≡ e ∷ [])
      → (act : DsChange) (d : Dscache) → d.root ≡ none
      → d.create_new_enabled ≡ true
      → valid_profile_id act.profile_id ≡ true
      → (d' : Dscache) × (handler sort_slice beyond write_fails set_slot dataset_name_init act d
          ≡ some d')
        × (d'.root ≡ some (single (new_user act) (new_entry act)))
  unfolding handler update_init_dataset
  init_dataset-empty sorts act d e c v =
      rw e (_, refl, init_empty_lem sorts act (record d { root = none }) c v)

  change_cursor-single :
      (act : DsChange) (d : Dscache) (u : UserAssoc) (r : RefEntryInfo)
      → d.root ≡ some (single u r)
      → r.init_id ≡ act.init_id
      → (d' : Dscache) × (handler sort_slice beyond write_fails set_slot dataset_commit_change act d
          ≡ some d')
        × (d'.root ≡ some (single u (set_cursor set_slot act r)))
  unfolding handler update_change_cursor update_refs save_root copy_with_replacement
  change_cursor-single act d u r e i = (_, refl, rw (e, i, str_eq_refl act.init_id) refl)

  -- On an empty cache that may create a new one, after a dataset is named and its first version
  -- is committed, a reference to its user and name resolves to its ids and to that version, if sorting one
  -- entry leaves it and the profile id has the expected length.
  pub cache_resolve_ref-committed :
      ((less : EntryInfo → EntryInfo → Bool) (e : EntryInfo) → sort_slice less (e ∷ []) ≡ e ∷ [])
      → (named committed : DsChange) (d : Dscache) (ref : Ref) → d.root ≡ none
      → d.create_new_enabled ≡ true
      → valid_profile_id named.profile_id ≡ true
      → committed.init_id ≡ named.init_id
      → ref.username ≡ named.username
      → ref.name ≡ named.pretty_name
      → is_empty ref.path ≡ true
      → (d1 : Dscache) × (d2 : Dscache) × (handler sort_slice beyond write_fails set_slot
            dataset_name_init named d
          ≡ some d1)
        × (handler sort_slice beyond write_fails set_slot dataset_commit_change committed d1
            ≡ some d2)
        × (cache_resolve_ref d2 ref
            ≡ ok (record ref {
              init_id = named.init_id;
              profile_id = named.profile_id;
              path = committed.head_ref;
            }))
  unfolding new_entry entry_ref new_version
  cache_resolve_ref-committed sorts named committed d ref e c v i u n p =
      let (d1, first, r1) = init_dataset-empty sorts named d e c v in
      let (d2, second, r2) =
        change_cursor-single committed d1 (new_user named) (new_entry named) r1 (sym i) in
      let (k, l, m, h) = set_cursor-keeps set_slot committed (new_entry named) in
      (
        d1,
        d2,
        first,
        second,
        cache_resolve_ref-single d2 (new_user named)
              (set_cursor set_slot committed (new_entry named)) ref r2 u
              (present_id named.profile_id v) l (m ∙ sym n) p
            ∙ rw (k, l, h) refl,
      )
