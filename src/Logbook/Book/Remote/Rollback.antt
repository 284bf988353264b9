-- ===== src/Logbook/Book/Remote/Rollback.antt =====
-- What a rollback of a write to a remote undoes.
use mathlib.Core.Path.{◌≡◌, refl, ap, ◌∙◌}
use mathlib.Core.Logic.{inl, inr}
use qri.Base.{List, [], ◌∷◌, ◌++◌, Bool, true, Str, ok, err, none, some, if◌then◌else◌}
use qri.Base.Int.{ℤ}
use qri.Oplog.Op.{Op, OpType, op_init, op_remove}
use qri.Oplog.Log.{Head, Logs, node, nil, cons}
use qri.Oplog.Tree.{find_logs_id, find-replace_logs}
use qri.Oplog.Journal.{Journal, get, put_back}
use qri.Logbook.Model.{save_failed}
use qri.Logbook.Book.Defs.{
  Book, Action, bind_ok, lift, has_write_access, save, branch_log, put_branch, append_to_branch,
}
use qri.Logbook.Book.Access.{has_write_access_granted, branch_log_lem}
use qri.Logbook.Book.Appending.{Holds, IsBranchModel, append_to_branch_lem}
use qri.Logbook.Book.Remote.{
  drop_last, keep_first, remote_op, write_remote, record_push, record_delete, rollback,
  rollback_once,
}

drop_last-append : (ops : List Op) (op : Op) → drop_last (ops ++ op ∷ []) ≡ ok ops
unfolding drop_last
drop_last-append [] op = refl
drop_last-append (o ∷ []) op = refl
drop_last-append (o ∷ p ∷ ops) op = ap (keep_first o) (drop_last-append (p ∷ ops) op)

pub remote_op-IsBranchModel :
    (t : OpType) (now revisions : ℤ) (addr : Str)
    → IsBranchModel (remote_op t now revisions addr).model
unfolding remote_op
remote_op-IsBranchModel t now revisions addr = inr (inr (inl refl))

module _ (hash : Op → Str) (writes : Journal → Bool)
    (all_written : (j : Journal) → writes j ≡ true) where
  save_lem : (b : Book) → save hash writes b ≡ (ok tt, record b { disk = some b.store })
  unfolding save
  save_lem b =
      ap (λ v. if v then (ok tt, record b { disk = some b.store }) else (err save_failed, b))
        (all_written b.store)

  module _ (init_id : Str) (h : Head) (ls : Logs) where
    write_remote_lem :
        (b : Book) (k : Head) (op o : Op) (os : List Op)
        → Holds hash writes init_id b h k ls
        → k.ops ≡ o ∷ os
        → o.author_id ≡ b.author_id
        → IsBranchModel op.model
        → (b' : Book) × (k' : Head) × (write_remote hash writes init_id op b ≡ (ok tt, b'))
          × Holds hash writes init_id b' h k' ls
          × (k'.ops ≡ k.ops ++ op ∷ [])
    unfolding write_remote
    write_remote_lem b k op o os found e mine w =
        let (b1, k', done, found', eo, _) =
          append_to_branch_lem hash writes init_id h ls b k op o os found e w in
        (
          record b1 { disk = some b1.store },
          k',
          bind_ok (branch_log hash writes init_id) _
                (branch_log_lem hash writes init_id h (node k ls) b found)
              ∙ bind_ok (has_write_access k) _ (has_write_access_granted k b o os e mine)
              ∙ bind_ok (append_to_branch hash writes init_id op) _ done
              ∙ save_lem b1,
          found',
          eo,
        )

    rollback_lem :
        (b : Book) (k : Head) (ops : List Op) (op : Op)
        → Holds hash writes init_id b h k ls
        → k.ops ≡ ops ++ op ∷ []
        → (b' : Book) × (rollback hash writes init_id b ≡ (ok tt, b'))
          × Holds hash writes init_id b' h (record k { ops = ops }) ls
          × (b'.disk ≡ some b'.store)
    unfolding rollback put_branch get put_back
    rollback_lem b k ops op found e =
        let new = node h (cons (node (record k { ops = ops }) ls) nil) in
        let b1 = record b { store = put_back hash b.store init_id new } in
        (
          record b1 { disk = some b1.store },
          bind_ok (branch_log hash writes init_id) _
                (branch_log_lem hash writes init_id h (node k ls) b found)
              ∙ bind_ok (lift (drop_last k.ops)) _
                  (ap (λ r. (r, b)) (ap drop_last e ∙ drop_last-append ops op))
              ∙ save_lem b1,
          find-replace_logs hash init_id new b.store.logs
              (find_logs_id hash init_id b.store.logs found) found,
          refl,
        )

    -- The write succeeds and adds the operation to the stored branch, and the rollback after it
    -- succeeds, leaves the branch with the operations that it had, and saves.
    abbrev pub IsUndone : Book → Head → Op → Action (Unit {0}) → Type 0
    IsUndone b k op act =
        (b1 : Book) × (b2 : Book) × (k1 : Head) × (act b ≡ (ok tt, b1))
        × Holds hash writes init_id b1 h k1 ls
        × (k1.ops ≡ k.ops ++ op ∷ [])
        × (rollback_once hash writes init_id none b1 ≡ (ok tt, b2))
        × Holds hash writes init_id b2 h (record k1 { ops = k.ops }) ls
        × (b2.disk ≡ some b2.store)

    pub write_remote-IsUndone :
        (b : Book) (k : Head) (op o : Op) (os : List Op)
        → Holds hash writes init_id b h k ls
        → k.ops ≡ o ∷ os
        → o.author_id ≡ b.author_id
        → IsBranchModel op.model
        → IsUndone b k op (write_remote hash writes init_id op)
    unfolding rollback_once
    write_remote-IsUndone b k op o os found e mine w =
        let (b1, k1, done, found1, e1) = write_remote_lem b k op o os found e mine w in
        let (b2, undone, found2, disk) = rollback_lem b1 k1 k.ops op found1 e1 in
        (b1, b2, k1, done, found1, e1, undone, found2, disk)

    -- What both write up to the save, and the rollback after it.
    pub rollback-write_remote :
        (b : Book) (k : Head) (o : Op) (os : List Op) (now revisions : ℤ) (addr : Str)
        → Holds hash writes init_id b h k ls
        → k.ops ≡ o ∷ os
        → o.author_id ≡ b.author_id
        → IsUndone b k
            (remote_op op_init now revisions addr)
            (record_push hash writes init_id now revisions addr)
          × IsUndone b k
              (remote_op op_remove now revisions addr)
              (record_delete hash writes init_id now revisions addr)
    unfolding record_push record_delete
    rollback-write_remote b k o os now revisions addr found e mine = (
      write_remote-IsUndone b k (remote_op op_init now revisions addr) o os found e mine
          (remote_op-IsBranchModel op_init now revisions addr),
      write_remote-IsUndone b k (remote_op op_remove now revisions addr) o os found e mine
          (remote_op-IsBranchModel op_remove now revisions addr),
    )
