-- ===== src/Sync/Push.antt =====
-- `Pull.Do` and `Push.Do`: the push is written before the log is sent, and undone if anything fails after that.
-- Reading the log back, with which WriteRemotePush ends, and its bytes are the parameter `log_bytes`:
-- where reading fails WriteRemotePush rolls back itself. The call of the remote is `put`.
use qri.Base.{
  ◌≡◌, refl, ◌≢◌, ◌⊎◌, inl, inr, List, [], ◌∷◌, ◌++◌, Bool, true, Str, Result, ok, err, panic,
  ◌>>=◌, if◌then◌else◌, ap, ◌∙◌, none,
}
use qri.Base.Int.{ℤ, pos}
use qri.Oplog.Op.{Op, op_init}
use qri.Oplog.Log
use qri.Oplog.Log.{Head, Logs}
use qri.Oplog.Journal.{Journal}
use qri.Logbook.Model.{Error}
use qri.Logbook.Book.Defs.{Book, Action, bind_ok, lift, pure}
use qri.Logbook.Book.Datasets.{book_merge_log}
use qri.Logbook.Book.Defs as Defs
use qri.Logbook.Book.Appending.{Holds}
use qri.Logbook.Book.Remote.{remote_op, record_push, rollback_once}
use qri.Logbook.Book.Remote.Rollback.{rollback-write_remote}

module _ (hash : Op → Str) (writes : Journal → Bool) (log_bytes : Book → Result Error Str)
    (put : Str → Result Error (Unit {0})) where
  abbrev pub sent : Book → Result Error (Unit {0})
  sent b = log_bytes b >>= put

  -- The rollback, whose own error is only logged, if there was an error.
  abbrev pub undo_failed : Str → Result Error (Unit {0}) → Action (Unit {0})
  undo_failed init_id (ok u) b = (ok tt, b)
  undo_failed init_id (err e) b = (err e, (rollback_once hash writes init_id none b).1)
  undo_failed init_id panic b = (panic, b)

  -- `Push.Do`
  unfoldable pub push_do : Str → (now : ℤ) → (remote_addr : Str) → Action (Unit {0})
  push_do init_id now remote_addr =
      Defs.◌>>=◌ (record_push hash writes init_id now (pos 1) remote_addr)
        (λ u b. undo_failed init_id (sent b) b)

  -- `Pull.Do`: what the remote sends is decoded, and merged if that was asked for. `verified` is the
  -- check of the sender's signature.
  unfoldable pub pull_do :
      (got : Result Error Str)
      → (Str → Result Error Log.Log)
      → (Log.Log → Result Error (Unit {0}))
      → (merge : Bool) → Action Log.Log
  pull_do got unmarshal verified merge = Defs.◌>>=◌ (lift (got >>= unmarshal)) (λ lg.
      if merge
      then Defs.◌>>=◌ (book_merge_log hash writes (verified lg) lg) (λ u. pure lg)
      else pure lg)

  module _ (all_written : (j : Journal) → writes j ≡ true) (init_id : Str) (h : Head)
      (ls : Logs) where
    -- The push is recorded, or the branch has the operations that it had.
    abbrev pub Recorded : Head → Op → Result Error (Unit {0}) → Head → Type 0
    Recorded k op r k' =
        ((r ≡ ok tt) × (k'.ops ≡ k.ops ++ op ∷ [])) ⊎ ((e : Error) × (r ≡ err e) × (k'.ops ≡ k.ops))

    undo_failed_lem :
        (b1 b2 : Book) (k1 : Head) (k : Head) (op : Op) (r : Result Error (Unit {0}))
        → Holds hash writes init_id b1 h k1 ls
        → k1.ops ≡ k.ops ++ op ∷ []
        → rollback_once hash writes init_id none b1 ≡ (ok tt, b2)
        → Holds hash writes init_id b2 h (record k1 { ops = k.ops }) ls
        → r ≢ panic
        → (after : Book) × (k' : Head) × (undo_failed init_id r b1 ≡ (r, after))
          × Holds hash writes init_id after h k' ls
          × Recorded k op r k'
    undo_failed_lem b1 b2 k1 k op (ok tt) found e undone found' calm =
        (b1, k1, refl, found, inl (refl, e))
    undo_failed_lem b1 b2 k1 k op (err why) found e undone found' calm = (
      b2,
      record k1 { ops = k.ops },
      ap (λ x. (err why, x.1)) undone,
      found',
      inr (why, refl, refl),
    )
    undo_failed_lem b1 b2 k1 k op panic found e undone found' calm = absurd (calm refl)

    -- Where every write succeeds and neither reading the log nor the remote panics, a push of the
    -- branch's author either succeeds, and the stored branch has the push as its last operation, or
    -- returns an error, and the stored branch has exactly the operations that it had before.
    pub push_do_lem :
        (b : Book) (k : Head) (o : Op) (os : List Op) (now : ℤ) (addr : Str)
        → Holds hash writes init_id b h k ls
        → k.ops ≡ o ∷ os
        → o.author_id ≡ b.author_id
        → ((b : Book) → sent b ≢ panic)
        → (r : Result Error (Unit {0})) × (after : Book) × (k' : Head) × (push_do init_id now addr b
            ≡ (r, after))
          × Holds hash writes init_id after h k' ls
          × Recorded k (remote_op op_init now (pos 1) addr) r k'
    unfolding push_do
    push_do_lem b k o os now addr found e mine calm =
        let (b1, b2, k1, wrote, found1, e1, undone, found2, disk) =
          (rollback-write_remote hash writes all_written init_id h ls b k o os now (pos 1) addr
            found e mine).0 in
        let (after, k', done, holds, recorded) =
          undo_failed_lem b1 b2 k1 k _ (sent b1) found1 e1 undone found2 (calm b1) in
        (
          sent b1,
          after,
          k',
          bind_ok (record_push hash writes init_id now (pos 1) addr) _ wrote ∙ done,
          holds,
          recorded,
        )
