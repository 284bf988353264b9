-- ===== src/Logbook/Book/Versions.antt =====
-- logbook/logbook.go: the operations on the versions of a dataset.
use qri.Base.{
  ◌-◌, List, [], ◌∷◌, Bool, false, not, Str, str_eq, ok, err, panic, Option, none, some, length,
}
use qri.Base.Int.{ℤ, pos, negsuc}
use qri.Oplog.Op.{Op, op_amend, op_remove, empty_op}
use qri.Oplog.Log.{head}
use qri.Oplog.Journal.{Journal}
use qri.Dsref.Ref.{Ref, VersionInfo, empty_ref}
use qri.Logbook.Model.{commit_model, log_too_short, run_id_mismatch}
use qri.Logbook.History.{branch_to_version_infos, last_or}
use qri.Logbook.Book.Defs.{
  Dataset, RunState, Action, ◌>>=◌, ◌>>◌, pure, lift, reject_if, publish, version_op,
  transform_run_op, has_write_access, save, branch_log, append_to_branch, empty_change,
  dataset_commit_change,
}
use qri.Logbook.Book.Resolve.{ref_to_init_id}
use qri.Logbook.Book.Datasets.{write_dataset_init}

module _ (hash : Op → Str) (writes : Journal → Bool) where
  -- The run that is recorded before the commit, if there is one.
  unfoldable pub append_run : Str → Dataset → Option RunState → Action (Unit {0})
  append_run init_id ds none = pure tt
  append_run init_id ds (some rs) = do
    reject_if (not (str_eq rs.id ds.run_id)) run_id_mismatch
    h ← append_to_branch hash writes init_id (transform_run_op rs)
    pure tt

  unfoldable pub write_version_save : Str → Dataset → Option RunState → Action (Unit {0})
  write_version_save init_id ds rs = do
    (lg, l) ← branch_log hash writes init_id
    has_write_access (head l)
    append_run init_id ds rs
    h ← append_to_branch hash writes init_id (version_op ds)
    save hash writes
    publish dataset_commit_change (record empty_change {
      init_id = init_id;
      top_index = length h.ops - 1;
      head_ref = ds.info.path;
      info = some ds.info;
    })

  unfoldable pub write_transform_run : Str → RunState → Action (Unit {0})
  write_transform_run init_id rs = do
    (lg, l) ← branch_log hash writes init_id
    has_write_access (head l)
    h ← append_to_branch hash writes init_id (transform_run_op rs)
    save hash writes

  unfoldable pub write_version_amend : Str → Dataset → Action (Unit {0})
  write_version_amend init_id ds = do
    (lg, l) ← branch_log hash writes init_id
    has_write_access (head l)
    h ← append_to_branch hash writes init_id (record empty_op {
      op_type = op_amend;
      model = commit_model;
      ref = ds.path;
      prev = ds.previous_path;
      timestamp = ds.timestamp;
      note = ds.title;
    })
    save hash writes

  -- The event of `WriteVersionDelete`. Its `lastItem` is the last of a list that is latest first.
  unfoldable pub publish_deleted : Str → List VersionInfo → Action (Unit {0})
  publish_deleted init_id [] = pure tt
  publish_deleted init_id (i ∷ is) =
      let last_item = last_or i is in
      publish dataset_commit_change (record empty_change {
        init_id = init_id;
        top_index = length (i ∷ is);
        head_ref = last_item.path;
        info = some last_item;
      })

  unfoldable pub write_version_delete : Str → (revisions : ℤ) → Action (Unit {0})
  write_version_delete init_id revisions = do
    (lg, l) ← branch_log hash writes init_id
    has_write_access (head l)
    h ←
        append_to_branch hash writes init_id
          (record empty_op { op_type = op_remove; model = commit_model; size = revisions })
    items ← lift (branch_to_version_infos h.ops empty_ref (pos 0) (negsuc 0) false)
    publish_deleted init_id items
    save hash writes

  -- The loop of `ConstructDatasetLog`.
  unfoldable pub append_versions : Str → List Dataset → Action (Unit {0})
  append_versions init_id [] = pure tt
  append_versions init_id (ds ∷ history) = do
    h ← append_to_branch hash writes init_id (version_op ds)
    append_versions init_id history

  unfoldable pub construct_dataset_log : (now later : ℤ) → Ref → List Dataset → Action (Unit {0})
  construct_dataset_log now later ref history b =
      let (found, b') = ref_to_init_id hash writes ref b in
      elim found [
        | ok init_id ↦ (err log_too_short, b')
        | err e ↦
            (do
              init_id ← write_dataset_init hash writes now later ref.name
              (lg, l) ← branch_log hash writes init_id
              append_versions init_id history
              save hash writes)
              b'
        | panic ↦ (panic, b')
      ]
