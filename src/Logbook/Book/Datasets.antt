-- ===== src/Logbook/Book/Datasets.antt =====
-- logbook/logbook.go: the operations on authors and on whole datasets.
use qri.Base.{
  [], ◌∷◌, Bool, false, not, ◌&&◌, Str, Result, ok, err, panic, length, is_empty, ◌==◌,
  if◌then◌else◌,
}
use qri.Base.Int.{ℤ}
use qri.Oplog.Op.{Op, op_init, op_amend, op_remove, empty_op}
use qri.Oplog.Log
use qri.Oplog.Log.{
  Head, Logs, node, nil, cons, head, children, ops_of, length_logs, init_log, append, author,
}
use qri.Oplog.Tree.{id_of, add_child}
use qri.Oplog.Journal.{Journal, remove_log, merge_log, set_id, replace_all}
use qri.Dsref.Ref.{Ref, empty_ref}
use qri.Dsref.Name.{is_valid_name}
use qri.Logbook.Model.{
  Error, author_model, dataset_model, branch_model, default_branch_name, invalid_name,
  name_required, dataset_exists, from_store,
}
use qri.Logbook.Book.Defs.{
  Action, ◌>>=◌, ◌>>◌, pure, lift, reject_if, of_store, publish, user_append, first_author_id,
  has_write_access, get_log, put_log, save, append_to_dataset, empty_change, dataset_name_init,
  dataset_delete_all, dataset_rename,
}
use qri.Logbook.Book.Resolve.{dataset_ref}

module _ (hash : Op → Str) (writes : Journal → Bool) where
  unfoldable pub write_author_rename : (now : ℤ) → Str → Action (Unit {0})
  write_author_rename now new_name = do
    reject_if (not (is_valid_name new_name)) invalid_name
    rename_op ← λ b. (
      ok (record empty_op {
        op_type = op_amend;
        model = author_model;
        author_id = b.author_id;
        name = new_name;
        timestamp = now;
      }),
      b,
    )
    author_id ← λ b. (ok b.author_id, b)
    lg ← get_log hash writes author_id
    h ← lift (of_store (user_append rename_op (head lg)))
    put_log hash writes author_id (node h (children lg))
    save hash writes
    λ b. (ok tt, record b { author_name = new_name })

  unfoldable pub write_dataset_rename : (now : ℤ) → Str → Str → Action (Unit {0})
  write_dataset_rename now init_id new_name = do
    reject_if (not (is_valid_name new_name)) invalid_name
    lg ← get_log hash writes init_id
    has_write_access (head lg)
    append_to_dataset hash writes init_id (record empty_op {
      op_type = op_amend;
      model = dataset_model;
      name = new_name;
      timestamp = now;
    })
    publish dataset_rename (record empty_change { init_id = init_id; pretty_name = new_name })
    save hash writes

  unfoldable pub write_dataset_delete : (now : ℤ) → Str → Action (Unit {0})
  write_dataset_delete now init_id = do
    lg ← get_log hash writes init_id
    has_write_access (head lg)
    append_to_dataset hash writes init_id
        (record empty_op { op_type = op_remove; model = dataset_model; timestamp = now })
    publish dataset_delete_all (record empty_change { init_id = init_id })
    save hash writes

  -- `Book.RemoveLog`: the error of the store is dropped.
  unfoldable pub remove_dataset_log : Ref → Action (Unit {0})
  remove_dataset_log ref = do
    λ b. elim (remove_log b.store (ref.username ∷ ref.name ∷ [])) [
      | ok j ↦ (ok tt, record b { store = j })
      | err e ↦ (ok tt, b)
      | panic ↦ (panic, b)
    ]
    save hash writes

  -- A log of one operation with one child, which has one operation.
  abbrev is_blank : Log.Log → Bool
  is_blank (node h (cons l nil)) = length h.ops == 1 && length (ops_of l) == 1
  is_blank (node h nil) = false
  is_blank (node h (cons l (cons m ls))) = false

  -- The guard of `WriteDatasetInit`: a blank log of the name is removed, any other refuses.
  unfoldable pub remove_stranded : Ref → Action (Unit {0})
  remove_stranded ref b =
      let (found, b') = dataset_ref hash writes ref b in
      elim found [
        | ok l ↦ if is_blank l then remove_dataset_log ref b' else (err dataset_exists, b')
        | err e ↦ (ok tt, b')
        | panic ↦ (panic, b')
      ]

  unfoldable pub write_dataset_init : (now later : ℤ) → Str → Action Str
  write_dataset_init now later ds_name = do
    reject_if (is_empty ds_name) name_required
    reject_if (not (is_valid_name ds_name)) invalid_name
    author_name ← λ b. (ok b.author_name, b)
    author_id ← λ b. (ok b.author_id, b)
    remove_stranded (record empty_ref { username = author_name; name = ds_name })
    author_log ← get_log hash writes author_id
    profile_id ← lift (first_author_id (ops_of author_log))
    let ds_log = init_log (record empty_op {
      op_type = op_init;
      model = dataset_model;
      author_id = author_id;
      name = ds_name;
      timestamp = now;
    })
    let branch = init_log (record empty_op {
      op_type = op_init;
      model = branch_model;
      author_id = author_id;
      name = default_branch_name;
      timestamp = later;
    })
    let ds_log' = add_child hash ds_log branch
    put_log hash writes author_id (add_child hash author_log ds_log')
    publish dataset_name_init (record empty_change {
      init_id = id_of hash ds_log';
      username = author_name;
      profile_id = profile_id;
      pretty_name = ds_name;
    })
    save hash writes
    pure (id_of hash ds_log')

  -- `initialize`: an author's log is merged into the store and owns it.
  unfoldable pub initialize : (now : ℤ) → Str → Action (Unit {0})
  initialize now author_id b =
      let user_actions = init_log (record empty_op {
        op_type = op_init;
        model = author_model;
        name = b.author_name;
        author_id = author_id;
        timestamp = now;
      }) in
      let id = id_of hash user_actions in
      let b1 = record b { author_id = id } in
      elim (merge_log hash b.store user_actions) [
        | ok j ↦
            let j' : Journal = elim (set_id hash j id) [ ok k ↦ k | err e ↦ j | panic ↦ j ] in
            save hash writes (record b1 { store = j' })
        | err e ↦ (err (from_store e), b1)
        | panic ↦ (panic, b1)
      ]

  -- `MergeLog`; `verified` is the answer of `lg.Verify` for the sender's key.
  unfoldable pub book_merge_log : (verified : Result Error (Unit {0})) → Log.Log → Action (Unit {0})
  book_merge_log verified lg = do
    lift verified
    λ b. elim (merge_log hash b.store lg) [
      | ok j ↦ (ok tt, record b { store = j })
      | err e ↦ (err (from_store e), b)
      | panic ↦ (panic, b)
    ]
    save hash writes

  unfoldable pub book_replace_all : Log.Log → Action (Unit {0})
  book_replace_all lg = do
    λ b. elim (replace_all hash b.store lg) [
      | ok j ↦ (ok tt, record b { store = j })
      | err e ↦ (err (from_store e), b)
      | panic ↦ (panic, b)
    ]
    save hash writes
