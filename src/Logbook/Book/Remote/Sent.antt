-- ===== src/Logbook/Book/Remote/Sent.antt =====
-- A write to a remote whose log is read back: it is recorded, or rolled back.
use qri.Base.{
  ◌≡◌, refl, ◌≢◌, ◌⊎◌, inl, inr, List, [], ◌∷◌, ◌++◌, Bool, true, Str, Result, ok, err, panic,
  Option, none, some, ap, sym, ◌∙◌, subst, ℕ,
}
use qri.Base.Int.{ℤ}
use qri.Oplog.Op.{Op, OpType}
use qri.Oplog.Log
use qri.Oplog.Log.{Head, Logs}
use qri.Oplog.Journal.{Journal}
use qri.Logbook.Model.{Error}
use qri.Logbook.Book.Defs.{Book}
use qri.Logbook.Book.Appending.{Holds}
use qri.Logbook.Book.Remote.{remote_op, write_remote, rollback_once}
use qri.Logbook.Book.Remote.Rollback.{IsUndone, write_remote-IsUndone, remote_op-IsBranchModel}
use qri.Logbook.Book.Remote.Sending.{
  Shared, user_dataset_branches_log, read_back, then_read, send_remote,
}

module _ (hash : Op → Str) (writes : Journal → Bool) (fuel : ℕ)
    (all_written : (j : Journal) → writes j ≡ true) (init_id : Str) (h : Head) (ls : Logs) where
  -- With the log: the operation is the last of the branch, and the rollback takes it back and saves.
  -- With an error: the branch has the operations that it had.
  abbrev pub SentOrUndone : Head → Op → Result Error (Option Log.Log) → Book → Type 0
  SentOrUndone k op r after =
      (k' : Head) × Holds hash writes init_id after h k' ls
      × (((l : Option Log.Log) × (b2 : Book) × (r ≡ ok l)
            × (k'.ops ≡ k.ops ++ op ∷ [])
            × (rollback_once hash writes init_id none after ≡ (ok tt, b2))
            × Holds hash writes init_id b2 h (record k' { ops = k.ops }) ls
            × (b2.disk ≡ some b2.store))
          ⊎ ((e : Error) × (r ≡ err e) × (k'.ops ≡ k.ops)))

  read_back_lem :
      (b b1 : Book) (k : Head) (op : Op) (r : Result Error (Option Log.Log)) (q : Option Head)
      → IsUndone hash writes all_written init_id h ls b k op (write_remote hash writes init_id op)
      → write_remote hash writes init_id op b ≡ (ok tt, b1)
      → r ≢ panic
      → (after : Shared) × (read_back hash writes fuel init_id
            (some (r, record { book = b1; pointer = q }))
          ≡ some (r, after))
        × SentOrUndone k op r after.book
  read_back_lem b b1 k op (ok l) q (b', b2, k1, wrote', found1, e1, undone, found2, disk) wrote
        calm =
      let e : b' ≡ b1 = ap (λ x. x.1) (sym wrote' ∙ wrote) in
      (
        record { book = b1; pointer = q },
        refl,
        (
          k1,
          subst (λ x. Holds hash writes init_id x h k1 ls) e found1,
          inl (
            l,
            b2,
            refl,
            e1,
            subst (λ x. rollback_once hash writes init_id none x ≡ (ok tt, b2)) e undone,
            found2,
            disk,
          ),
        ),
      )
  read_back_lem b b1 k op (err why) q (b', b2, k1, wrote', found1, e1, undone, found2, disk) wrote
        calm =
      let e : b' ≡ b1 = ap (λ x. x.1) (sym wrote' ∙ wrote) in
      let back : b2 ≡ (rollback_once hash writes init_id none b1).1 = sym (
        ap (λ x. x.1)
          (subst (λ x. rollback_once hash writes init_id none x ≡ (ok tt, b2)) e undone)) in
      (
        record { book = (rollback_once hash writes init_id none b1).1; pointer = q },
        refl,
        (
          record k1 { ops = k.ops },
          subst (λ x. Holds hash writes init_id x h (record k1 { ops = k.ops }) ls) back found2,
          inr (why, refl, refl),
        ),
      )
  read_back_lem b b1 k op panic q u wrote calm = absurd (calm refl)

  -- Where every write succeeds, the branch's author calls WriteRemotePush or WriteRemoteDelete, and
  -- reading the log back after the save, from the book `b1`, does not panic and leaves the book as it
  -- is (it may only sign ancestors that have no signature with that of the log): the call returns what reading returns. If that is a log, the operation is the last of the
  -- stored branch, and the rollback takes it back and saves; if it is an error, the stored branch
  -- has exactly the operations that it had before.
  pub send_remote_lem :
      (s : Shared) (k : Head) (o : Op) (os : List Op) (t : OpType) (now revisions : ℤ) (addr : Str)
      (b1 : Book) (r : Result Error (Option Log.Log)) (q : Option Head)
      → Holds hash writes init_id s.book h k ls
      → k.ops ≡ o ∷ os
      → o.author_id ≡ s.book.author_id
      → write_remote hash writes init_id (remote_op t now revisions addr) s.book ≡ (ok tt, b1)
      → user_dataset_branches_log hash writes fuel init_id
          (record { book = b1; pointer = s.pointer })
        ≡ some (r, record { book = b1; pointer = q })
      → r ≢ panic
      → (after : Shared) × (send_remote hash writes fuel init_id (remote_op t now revisions addr) s
          ≡ some (r, after))
        × SentOrUndone k (remote_op t now revisions addr) r after.book
  unfolding send_remote
  send_remote_lem s k o os t now revisions addr b1 r q found e mine wrote read calm =
      let (after, done, sent) =
        read_back_lem s.book b1 k (remote_op t now revisions addr) r q
          (write_remote-IsUndone hash writes all_written init_id h ls s.book k
            (remote_op t now revisions addr) o os found e mine
            (remote_op-IsBranchModel t now revisions addr))
          wrote calm in
      (
        after,
        ap (then_read hash writes fuel init_id s.pointer) wrote
            ∙ ap (read_back hash writes fuel init_id) read
            ∙ done,
        sent,
      )
