-- ===== src/Logbook/Book/Resolve.antt =====
-- logbook/logbook.go: from references to logs and versions.
use qri.Base.{List, [], ◌∷◌, Bool, true, Str, ok, err, panic, is_empty, if◌then◌else◌}
use qri.Base.Int.{ℤ}
use qri.Oplog.Op.{Op}
use qri.Oplog.Log
use qri.Oplog.Log.{
  Head, Logs, node, nil, cons, head, children, ops_of, length_logs, init_log, append, author,
}
use qri.Oplog.Tree.{id_of}
use qri.Oplog.Journal.{Journal, head_ref_top}
use qri.Dsref.Ref.{Ref, VersionInfo, empty_ref, present}
use qri.Logbook.Model.{default_branch_name, not_found, name_required, username_required, from_store}
use qri.Logbook.History.{branch_to_version_infos, latest_save_path}
use qri.Logbook.Book.Defs.{
  Action, ◌>>=◌, ◌>>◌, pure, lift, reject_if, of_store, first_author_id, get_log, branch_log,
}

module _ (hash : Op → Str) (writes : Journal → Bool) where
  -- `RefToInitID`
  unfoldable pub ref_to_init_id : Ref → Action Str
  ref_to_init_id ref b = elim (head_ref_top b.store (ref.username ∷ ref.name ∷ [])) [
    | ok l ↦ (ok (id_of hash l), b)
    | err e ↦ (err (elim e [ Log.not_found ↦ not_found | other ↦ from_store other ]), b)
    | panic ↦ (panic, b)
  ]

  -- `DatasetRef`
  unfoldable pub dataset_ref : Ref → Action Log.Log
  dataset_ref ref = do
    reject_if (is_empty ref.username) username_required
    reject_if (is_empty ref.name) name_required
    λ b. (of_store (head_ref_top b.store (ref.username ∷ ref.name ∷ [])), b)

  -- `BranchRef`
  unfoldable pub branch_ref : Ref → Action Log.Log
  branch_ref ref = do
    reject_if (is_empty ref.username) username_required
    reject_if (is_empty ref.name) name_required
    λ b. (of_store (head_ref_top b.store (ref.username ∷ ref.name ∷ default_branch_name ∷ [])), b)

  -- The path that `ResolveRef` fills in.
  unfoldable pub resolve_path : Str → Ref → Action Ref
  resolve_path init_id ref = if present ref.path then pure ref else do
    (lg, l) ← branch_log hash writes init_id
    pure (record ref { path = latest_save_path (ops_of l) })

  -- The profile id that `ResolveRef` fills in.
  unfoldable pub resolve_profile : Str → Ref → Action Ref
  resolve_profile init_id ref = if present ref.profile_id then pure ref else do
    (lg, l) ← branch_log hash writes init_id
    a ← lift (of_store (author (head l)))
    author_log ← get_log hash writes a
    p ← lift (first_author_id (ops_of author_log))
    pure (record ref { profile_id = p })

  -- `ResolveRef`: the reference with the fields that it filled in; every failed lookup of the
  -- name is reported as a reference that is not found.
  unfoldable pub resolve_ref : Ref → Action Ref
  resolve_ref ref b =
      let (found, b') = ref_to_init_id ref b in
      elim found [
        | ok init_id ↦
            (do
              ref' ← resolve_path init_id (record ref { init_id = init_id })
              resolve_profile init_id ref')
              b'
        | err e ↦ (err not_found, b')
        | panic ↦ (panic, b')
      ]

  -- `Items`
  unfoldable pub items : Ref → (offset limit : ℤ) → Action (List VersionInfo)
  items ref offset limit = do
    init_id ← ref_to_init_id (record empty_ref { username = ref.username; name = ref.name })
    (lg, l) ← branch_log hash writes init_id
    lift (branch_to_version_infos (ops_of l) ref offset limit true)
