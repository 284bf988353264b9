-- ===== src/Logbook/Book/Appending.antt =====
-- What a write of the author's adds to the branch.
use mathlib.Core.Path.{◌≡◌, refl, sym, ap, ◌∙◌, subst}
use mathlib.Core.Logic.{◌⊎◌, inl, inr}
use qri.Base.{
  ℕ, List, [], ◌∷◌, ◌++◌, Bool, true, not, Str, str_eq, str_eq_iff, ok, err, Option, none, some,
  if◌then◌else◌, arith, append_assoc, append-nil,
}
use qri.Oplog.Op.{Op}
use qri.Oplog.Log.{Head, Logs, node, nil, cons, append, model}
use qri.Oplog.Tree.{find_logs_id, find-replace_logs}
use qri.Oplog.Journal.{Journal, get, put_back}
use qri.Logbook.Model.{
  branch_model, commit_model, push_model, run_model, run_id_mismatch, save_failed,
}
use qri.Logbook.History.{latest_save_path}
use qri.Logbook.Book.Defs.{
  Book, Dataset, RunState, bind_ok, lift, reject_if, of_store, branch_append, version_op,
  transform_run_op, has_write_access, save, branch_log, put_branch, append_to_branch,
}
use qri.Logbook.Book.Versions.{append_run, write_version_save}
use qri.Logbook.Book.Access.{has_write_access_granted, branch_log_lem}
use qri.Logbook.History.Latest.{IsCommit, latest_save_path-commit}

append_lem :
    (op o : Op) (os : List Op) (h : Head)
    → h.ops ≡ o ∷ os
    → (k : Head) × (append op h ≡ ok k) × (k.ops ≡ h.ops ++ op ∷ [])
unfolding append model
append_lem op o os h e =
    subst (λ t. (k : Head) × (append op (record h { ops = t }) ≡ ok k) × (k.ops ≡ t ++ op ∷ []))
      (sym e) (_, refl, refl)

-- The models of the operations that a branch takes.
abbrev pub IsBranchModel : ℕ → Type 0
IsBranchModel m = (m ≡ branch_model) ⊎ (m ≡ commit_model) ⊎ (m ≡ push_model) ⊎ (m ≡ run_model)

branch_append_lem : (op : Op) (h : Head) → IsBranchModel op.model → branch_append op h ≡ append op h
unfolding branch_append
branch_append_lem op h w = ground arith

version_op-IsBranchModel : (ds : Dataset) → IsBranchModel (version_op ds).model
unfolding version_op
version_op-IsBranchModel ds = inr (inl refl)

version_op-IsCommit : (ds : Dataset) → IsCommit (version_op ds)
unfolding version_op
version_op-IsCommit ds = (refl, refl)

transform_run_op-IsBranchModel : (rs : RunState) → IsBranchModel (transform_run_op rs).model
unfolding transform_run_op
transform_run_op-IsBranchModel rs = inr (inr (inr refl))

-- The operations that record the run of a saved version, and what links the run to the version.
abbrev pub run_ops : Option RunState → List Op
run_ops none = []
run_ops (some rs) = transform_run_op rs ∷ []

abbrev pub Matches : Dataset → Option RunState → Type 0
Matches ds none = Unit
Matches ds (some rs) = rs.id ≡ ds.run_id

module _ (hash : Op → Str) (writes : Journal → Bool) (init_id : Str) where
  -- The dataset's log in a book: its fields, and its one branch.
  abbrev pub Holds : Book → Head → Head → Logs → Type 0
  Holds b h k ls = get hash b.store init_id ≡ ok (node h (cons (node k ls) nil))

  module _ (h : Head) (ls : Logs) where
    pub append_to_branch_lem :
        (b : Book) (k : Head) (op o : Op) (os : List Op)
        → Holds b h k ls
        → k.ops ≡ o ∷ os
        → IsBranchModel op.model
        → (b' : Book) × (k' : Head) × (append_to_branch hash writes init_id op b ≡ (ok k', b'))
          × Holds b' h k' ls
          × (k'.ops ≡ k.ops ++ op ∷ [])
          × (b'.author_id ≡ b.author_id)
    unfolding append_to_branch put_branch get put_back
    append_to_branch_lem b k op o os found e w =
        let (k', ek, eo) = append_lem op o os k e in
        let new = node h (cons (node k' ls) nil) in
        (
          record b { store = put_back hash b.store init_id new },
          k',
          bind_ok (branch_log hash writes init_id) _
                (branch_log_lem hash writes init_id h (node k ls) b found)
              ∙ bind_ok (lift (of_store (branch_append op k))) _
                  (ap (λ r. (of_store r, b)) (branch_append_lem op k w ∙ ek)),
          find-replace_logs hash init_id new b.store.logs
              (find_logs_id hash init_id b.store.logs found) found,
          eo,
          refl,
        )

    -- The run that is appended before a commit.
    append_run_lem :
        (b : Book) (k : Head) (ds : Dataset) (run : Option RunState) (o : Op) (os : List Op)
        → Holds b h k ls
        → k.ops ≡ o ∷ os
        → Matches ds run
        → (b' : Book) × (k' : Head) × (append_run hash writes init_id ds run b ≡ (ok tt, b'))
          × Holds b' h k' ls
          × (k'.ops ≡ k.ops ++ run_ops run)
    unfolding append_run
    append_run_lem b k ds none o os found e m = (b, k, refl, found, sym (append-nil k.ops))
    append_run_lem b k ds (some rs) o os found e m =
        let same : str_eq rs.id ds.run_id ≡ true = (str_eq_iff rs.id ds.run_id).1 m in
        let (b', k', done, found', eo, _) =
          append_to_branch_lem b k (transform_run_op rs) o os found e
            (transform_run_op-IsBranchModel rs) in
        (
          b',
          k',
          bind_ok (reject_if (not (str_eq rs.id ds.run_id)) run_id_mismatch) _
                (ap (λ v. (if not v then err run_id_mismatch else ok tt, b)) same)
              ∙ bind_ok (append_to_branch hash writes init_id (transform_run_op rs)) _ done,
          found',
          eo,
        )

    -- Where every write succeeds, a version that the branch's author saves, with the run that made
    -- it if there was one, is saved without an error: the new store has the dataset's log with its
    -- own fields and its branch's children as they were, and with exactly the operations of the
    -- run and of the version added at the end of the branch; the new store is on disk, and the
    -- path of the version is now the latest saved path.
    pub write_version_save_lem :
        (b : Book) (k : Head) (ds : Dataset) (run : Option RunState) (o : Op) (os : List Op)
        → ((j : Journal) → writes j ≡ true)
        → Holds b h k ls
        → k.ops ≡ o ∷ os
        → o.author_id ≡ b.author_id
        → Matches ds run
        → (b' : Book) × (k' : Head) × (write_version_save hash writes init_id ds run b
            ≡ (ok tt, b'))
          × Holds b' h k' ls
          × (k'.ops ≡ k.ops ++ (run_ops run ++ version_op ds ∷ []))
          × (b'.disk ≡ some b'.store)
          × (latest_save_path k'.ops ≡ ds.path)
    unfolding write_version_save save version_op
    write_version_save_lem b k ds run o os w found e mine m =
        let (b1, k1, ran, found1, e1) = append_run_lem b k ds run o os found e m in
        let (b2, k2, done, found2, e2, _) =
          append_to_branch_lem b1 k1 (version_op ds) o (os ++ run_ops run) found1
            (e1 ∙ ap (λ t. t ++ run_ops run) e) (version_op-IsBranchModel ds) in
        (
          _,
          k2,
          bind_ok (branch_log hash writes init_id) _
                (branch_log_lem hash writes init_id h (node k ls) b found)
              ∙ bind_ok (has_write_access k) _ (has_write_access_granted k b o os e mine)
              ∙ bind_ok (append_run hash writes init_id ds run) _ ran
              ∙ bind_ok (append_to_branch hash writes init_id (version_op ds)) _ done
              ∙ bind_ok (save hash writes) _ (
                  ap
                    (λ v.
                      if v
                      then (ok tt, record b2 { disk = some b2.store })
                      else (err save_failed, b2))
                    (w b2.store)),
          found2,
          e2
              ∙ ap (λ t. t ++ version_op ds ∷ []) e1
              ∙ append_assoc k.ops (run_ops run) (version_op ds ∷ []),
          refl,
          ap latest_save_path e2
              ∙ latest_save_path-commit k1.ops (version_op ds) (version_op-IsCommit ds),
        )
