-- ===== src/Dscache/Entries.antt =====
-- The cache seen as a map from init ids to entries, and the events as changes of one entry of it.
use qri.Base.{
  ℕ, ◌≡◌, refl, ◌≢◌, inl, inr, List, [], ◌∷◌, Bool, true, false, Str, str_eq, str_eq_iff, is_empty,
  if◌then◌else◌, Bool-cases, ap, ◌∙◌, Option, none, some,
}
use qri.Base.Int.{ℤ}
use qri.Dsref.Ref.{VersionInfo}
use qri.Logbook.Book.Defs.{
  EventType, dataset_name_init, dataset_commit_change, dataset_delete_all, dataset_rename,
  dataset_create_link, DsChange,
}
use qri.Dscache.Cache.{RefEntryInfo, Root, Dscache}
use qri.Dscache.Update.{
  EntryInfo, copy_with_replacement, copy_without, has_init_id, matches_link, set_link, set_info,
  set_cursor, save_root, update_refs, update_change_cursor, update_delete_dataset,
  update_create_link, handler,
}

-- The entry of an init id.
abbrev pub entry_of : Str → List RefEntryInfo → Option RefEntryInfo
entry_of id [] = none
entry_of id (r ∷ rs) = let later = entry_of id rs in if str_eq r.init_id id then some r else later

abbrev on_entry : (RefEntryInfo → RefEntryInfo) → Option RefEntryInfo → Option RefEntryInfo
on_entry f none = none
on_entry f (some r) = some (f r)

neq_trans : (a b c : Str) → str_eq a b ≡ true → str_eq c b ≡ false → str_eq a c ≡ false
neq_trans a b c h k = elim (Bool-cases (str_eq a c)) [
  | inl e ↦ cc (k, h, (str_eq_iff a c).0 e)
  | inr d ↦ d
]

module _ (match : RefEntryInfo → Bool) (replace : RefEntryInfo → RefEntryInfo) (key : Str)
    (by_id : (r : RefEntryInfo) → match r ≡ str_eq r.init_id key)
    (keeps : (r : RefEntryInfo) → (replace r).init_id ≡ r.init_id) where
  entry_of-replaced :
      (rs : List RefEntryInfo)
      → entry_of key (copy_with_replacement match replace rs) ≡ on_entry replace (entry_of key rs)
  unfolding copy_with_replacement
  entry_of-replaced [] = refl
  entry_of-replaced (r ∷ rs) = elim (Bool-cases (str_eq r.init_id key)) [
    | inl e ↦ rw (by_id r, e, keeps r, e) refl
    | inr d ↦ rw (by_id r, d, d) (entry_of-replaced rs)
  ]

  entry_of-kept :
      (id : Str) (rs : List RefEntryInfo)
      → str_eq id key ≡ false
      → entry_of id (copy_with_replacement match replace rs) ≡ entry_of id rs
  unfolding copy_with_replacement
  entry_of-kept id [] n = refl
  entry_of-kept id (r ∷ rs) n = elim (Bool-cases (str_eq r.init_id key)) [
    | inl e ↦ rw (by_id r, e, keeps r, neq_trans r.init_id key id e n) (entry_of-kept id rs n)
    | inr d ↦
        rw (by_id r, d)
          (ap (λ o. if str_eq r.init_id id then some r else o) (entry_of-kept id rs n))
  ]

  entry_of-replacement :
      (id : Str) (rs : List RefEntryInfo)
      → entry_of id (copy_with_replacement match replace rs)
        ≡ (if str_eq id key then on_entry replace (entry_of id rs) else entry_of id rs)
  entry_of-replacement id rs = elim (Bool-cases (str_eq id key)) [
    | inl e ↦ rw (e, (str_eq_iff id key).0 e) (entry_of-replaced rs)
    | inr d ↦ rw d (entry_of-kept id rs d)
  ]

entry_of-without :
    (match : RefEntryInfo → Bool) (key : Str)
    → ((r : RefEntryInfo) → match r ≡ str_eq r.init_id key)
    → (id : Str) (rs : List RefEntryInfo)
    → entry_of id (copy_without match rs) ≡ (if str_eq id key then none else entry_of id rs)
unfolding copy_without
entry_of-without match key by_id id [] = elim (Bool-cases (str_eq id key)) [
  | inl e ↦ rw e refl
  | inr d ↦ rw d refl
]
entry_of-without match key by_id id (r ∷ rs) = elim (Bool-cases (str_eq r.init_id key)) [
  | inl e ↦ elim (Bool-cases (str_eq id key)) [
    | inl f ↦ rw (by_id r, e, f) (entry_of-without match key by_id id rs ∙ rw f refl)
    | inr g ↦
        rw (by_id r, e, g, neq_trans r.init_id key id e g)
          (entry_of-without match key by_id id rs ∙ rw g refl)
  ]
  | inr d ↦ elim (Bool-cases (str_eq id key)) [
    | inl f ↦
        rw (by_id r, d, f, (str_eq_iff id key).0 f, d)
          (entry_of-without match key by_id id rs ∙ rw f refl)
    | inr g ↦
        rw (by_id r, d, g)
          (ap (λ o. if str_eq r.init_id id then some r else o)
            (entry_of-without match key by_id id rs ∙ rw g refl))
  ]
]

matches_link_id :
    (user : Str) (act : DsChange) (r : RefEntryInfo)
    → is_empty act.init_id ≡ false
    → matches_link user act r ≡ str_eq r.init_id act.init_id
unfolding matches_link
matches_link_id user act r h = rw h refl

set_link-init_id : (act : DsChange) (r : RefEntryInfo) → (set_link act r).init_id ≡ r.init_id
unfolding set_link
set_link-init_id act r = refl

module _ (set_slot : ℤ → ℤ → ℤ) where
  set_info-init_id :
      (o : Option VersionInfo) (r : RefEntryInfo) → (set_info set_slot o r).init_id ≡ r.init_id
  unfolding set_info
  set_info-init_id none r = refl
  set_info-init_id (some v) r = refl

  set_cursor-init_id :
      (act : DsChange) (r : RefEntryInfo) → (set_cursor set_slot act r).init_id ≡ r.init_id
  unfolding set_cursor
  set_cursor-init_id act r = set_info-init_id act.info r

  -- What an event does to the entry of an init id.
  abbrev pub changed : EventType → DsChange → Str → Option RefEntryInfo → Option RefEntryInfo
  changed dataset_commit_change act id o =
      if str_eq id act.init_id then on_entry (set_cursor set_slot act) o else o
  changed dataset_delete_all act id o = if str_eq id act.init_id then none else o
  changed dataset_create_link act id o =
      if str_eq id act.init_id then on_entry (set_link act) o else o
  changed dataset_rename act id o = o
  changed dataset_name_init act id o = o

module _ (sort_slice : (EntryInfo → EntryInfo → Bool) → List EntryInfo → List EntryInfo)
    (beyond : List RefEntryInfo → ℕ → Option RefEntryInfo) (write_fails : Str → Root → Bool)
    (set_slot : ℤ → ℤ → ℤ) where
  abbrev Simulates : EventType → DsChange → Root → Dscache → Type 0
  Simulates t act root d =
      (after : Root) × (d.root ≡ some after)
      × (after.users ≡ root.users)
      × ((id : Str) → entry_of id after.refs ≡ changed set_slot t act id (entry_of id root.refs))

  update_refs_lem :
      (t : EventType) (act : DsChange) (root : Root) (d : Dscache)
      (change : List RefEntryInfo → List RefEntryInfo)
      → d.root ≡ some root
      → ((id : Str)
          → entry_of id (change root.refs) ≡ changed set_slot t act id (entry_of id root.refs))
      → Simulates t act root (update_refs sort_slice beyond write_fails set_slot change d).0
  unfolding update_refs save_root
  update_refs_lem t act root d change e w =
      rw e (record root { refs = change root.refs }, refl, refl, w)

  -- On a cache that is not empty, an event other than the naming of a dataset that gives an init id changes
  -- the entry of that id and no other, and keeps the users: a commit sets its cursor, a deletion
  -- removes it, a link sets its directory.
  pub handler-entry_of :
      (t : EventType) (act : DsChange) (root : Root) (d : Dscache)
      → d.root ≡ some root
      → t ≢ dataset_name_init
      → is_empty act.init_id ≡ false
      → (d' : Dscache) × (handler sort_slice beyond write_fails set_slot t act d ≡ some d')
        × Simulates t act root d'
  unfolding handler update_change_cursor update_delete_dataset update_create_link
  handler-entry_of dataset_name_init act root d e n h = absurd (n refl)
  handler-entry_of dataset_rename act root d e n h = (d, refl, (root, e, refl, λ id. refl))
  handler-entry_of dataset_commit_change act root d e n h = (
    _,
    refl,
    update_refs_lem dataset_commit_change act root d _ e (λ id.
        entry_of-replacement (has_init_id act) (set_cursor set_slot act) act.init_id (λ r. refl)
          (set_cursor-init_id set_slot act) id root.refs),
  )
  handler-entry_of dataset_delete_all act root d e n h = (
    _,
    refl,
    update_refs_lem dataset_delete_all act root d _ e
        (λ id. entry_of-without (has_init_id act) act.init_id (λ r. refl) id root.refs),
  )
  handler-entry_of dataset_create_link act root d e n h = (
    _,
    refl,
    update_refs_lem dataset_create_link act root d _ e (λ id.
        entry_of-replacement (matches_link d.default_username act) (set_link act) act.init_id
          (λ r. matches_link_id d.default_username act r h) (set_link-init_id act) id root.refs),
  )
