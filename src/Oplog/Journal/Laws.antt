-- ===== src/Oplog/Journal/Laws.antt =====
-- `Journal.MergeLog` and `Journal.Get` together.
use qri.Base.{
  false, ℕ, ◌≡◌, refl, ◌≢◌, ◌⊎◌, inl, inr, List, [], ◌∷◌, Str, str_eq, Result, ok, err, length,
  is_empty, ltb, if◌then◌else◌, arith, Bool-cases, ok_injective, ap, ◌∙◌, subst, none, some,
  >>=-eq-ok,
}
use qri.Oplog.Op.{Op}
use qri.Oplog.Log.{
  Error, empty_id, Head, Log, Logs, node, nil, cons, head, ops_of, append_logs, first_op_author_id,
  first_author, model,
}
use qri.Oplog.Tree.{
  id_of, id_of_ops, find_log, find_logs, replace_log, replace_logs, find_log_total, find_logs_total,
  find_logs_id, find-replace_logs,
}
use qri.Oplog.Merge.{merge}
use qri.Oplog.Merge.Invariant.{AllHeads, AllHeadsIn, IsSound, merge-IsSound}
use qri.Oplog.Merge.Longest.{head-merge}
use qri.Oplog.Journal.{
  Journal, get, put_back, merge_known, merge_unknown, merge_same_author, merge_log,
}

-- Every log of the journal has an operation and right caches.
abbrev pub JournalIsSound : Journal → Type 0
JournalIsSound j = AllHeadsIn IsSound j.logs

module _ (hash : Op → Str) (P : Head → Type 0) where
  mutual
    unfolding find_log

    find_log_keeps :
        (id : Str) (l : Log) {r : Log} → AllHeads P l → find_log hash id l ≡ ok r → AllHeads P r
    find_log_keeps id (node h ls) {r} w e = elim (Bool-cases (str_eq (id_of_ops hash h.ops) id)) [
      | inl t ↦ subst (AllHeads P) (ok_injective {E = Error} (rw t at e)) w
      | inr f ↦ find_logs_keeps id ls w.1 (rw f at e)
    ]

    find_logs_keeps :
        (id : Str) (ls : Logs) {r : Log}
        → AllHeadsIn P ls
        → find_logs hash id ls ≡ ok r
        → AllHeads P r
    find_logs_keeps id nil w e = absurd (cc)
    find_logs_keeps id (cons l ls) {r} w e = elim (find_log_total hash id l) [
      | inl (q, p) ↦
          subst (AllHeads P) (ok_injective {E = Error} (rw p at e)) (find_log_keeps id l w.0 p)
      | inr p ↦ find_logs_keeps id ls w.1 (rw p at e)
    ]

  mutual
    unfolding find_log replace_log

    replace_log_keeps :
        (id : Str) (new l : Log)
        → AllHeads P new
        → AllHeads P l
        → AllHeads P (replace_log hash id new l)
    replace_log_keeps id new (node h ls) n w =
        elim (Bool-cases (str_eq (id_of_ops hash h.ops) id)) [
          | inl t ↦ rw t n
          | inr f ↦ rw f (w.0, replace_logs_keeps id new ls n w.1)
        ]

    replace_logs_keeps :
        (id : Str) (new : Log) (ls : Logs)
        → AllHeads P new
        → AllHeadsIn P ls
        → AllHeadsIn P (replace_logs hash id new ls)
    replace_logs_keeps id new nil n w = tt
    replace_logs_keeps id new (cons l ls) n w = elim (find_log_total hash id l) [
      | inl (q, p) ↦ rw p (replace_log_keeps id new l n w.0, w.1)
      | inr p ↦ rw p (w.0, replace_logs_keeps id new ls n w.1)
    ]

  append_logs_keeps :
      (ls rs : Logs) → AllHeadsIn P ls → AllHeadsIn P rs → AllHeadsIn P (append_logs ls rs)
  append_logs_keeps nil rs w v = v
  append_logs_keeps (cons l ls) rs w v = (w.0, append_logs_keeps ls rs w.1 v)

model_total : (os : List Op) → os ≢ [] → (m : ℕ) × (model os ≡ ok m)
unfolding model
model_total [] h = absurd (h refl)
model_total (o ∷ os) h = (o.model, refl)

author_total : (l : Log) → AllHeads IsSound l → (a : Str) × (first_op_author_id (head l) ≡ ok a)
unfolding first_op_author_id
author_total (node h ls) w =
    let (m, e) = model_total h.ops w.0.0 in (first_author m h.ops, rw e refl)

module _ (hash : Op → Str) where
  merge_same_author_keeps :
      (incoming : Log) (ls : Logs)
      → AllHeads IsSound incoming
      → AllHeadsIn IsSound ls
      → (merge_same_author hash incoming ls ≡ ok none)
        ⊎ ((ls' : Logs) × (merge_same_author hash incoming ls ≡ ok (some ls'))
            × AllHeadsIn IsSound ls')
  unfolding merge_same_author
  merge_same_author_keeps incoming nil wi w = inl refl
  merge_same_author_keeps incoming (cons lg ls) wi w =
      let (a, ea) = author_total lg w.0 in
      let (b, eb) = author_total incoming wi in
      elim (Bool-cases (str_eq a b)) [
        | inl t ↦
            let (r, er, wr) = merge-IsSound hash lg incoming w.0 wi in
            inr (cons r ls, rw (ea, eb, t, er) refl, (wr, w.1))
        | inr f ↦ elim (merge_same_author_keeps incoming ls wi w.1) [
          | inl e ↦ inl (rw (ea, eb, f, e) refl)
          | inr (rest, e, wr) ↦ inr (cons lg rest, rw (ea, eb, f, e) refl, (w.0, wr))
        ]
      ]

  merge_unknown-IsSound :
      (j : Journal) (l : Log)
      → JournalIsSound j
      → AllHeads IsSound l
      → (j' : Journal) × (merge_unknown hash j l ≡ ok j') × JournalIsSound j'
  unfolding merge_unknown
  merge_unknown-IsSound j l w wl = elim (merge_same_author_keeps l j.logs wl w) [
    | inl e ↦ (
      record j { logs = append_logs j.logs (cons l nil) },
      rw e refl,
      append_logs_keeps hash IsSound j.logs (cons l nil) w (wl, tt),
    )
    | inr (ls, e, wls) ↦ (record j { logs = ls }, rw e refl, wls)
  ]

  merge_known-IsSound :
      (j : Journal) (l : Log)
      → JournalIsSound j
      → AllHeads IsSound l
      → (j' : Journal) × (merge_known hash j l (get hash j (id_of hash l)) ≡ ok j')
        × JournalIsSound j'
  unfolding merge_known get put_back
  merge_known-IsSound j l w wl = elim (find_logs_total hash (id_of hash l) j.logs) [
    | inl (found, e) ↦
        let (r, er, wr) =
          merge-IsSound hash found l (find_logs_keeps hash IsSound (id_of hash l) j.logs w e) wl in
        (
          put_back hash j (id_of hash l) r,
          rw (e, er) refl,
          replace_logs_keeps hash IsSound (id_of hash l) r j.logs wr w,
        )
    | inr e ↦ rw e (merge_unknown-IsSound j l w wl)
  ]

  -- Merging a log, each of whose logs has an operation and right caches, into a journal of such
  -- logs is refused exactly if the log's id is empty, and otherwise returns such a journal.
  pub merge_log-IsSound :
      (j : Journal) (l : Log)
      → JournalIsSound j
      → AllHeads IsSound l
      → (merge_log hash j l ≡ err empty_id) × (id_of hash l ≡ [])
        ⊎ (is_empty (id_of hash l) ≡ false)
          × ((j' : Journal) × (merge_log hash j l ≡ ok j') × JournalIsSound j')
  unfolding merge_log
  merge_log-IsSound j l w wl = elim (Bool-cases (is_empty (id_of hash l))) [
    | inl t ↦ inl (rw t refl, ground arith)
    | inr f ↦ inr (f, rw f (merge_known-IsSound j l w wl))
  ]

  err-ne-ok : {A : Type 0} {a : A} {e : Error} → ◌≢◌ {A = Result Error A} (err e) (ok a)
  err-ne-ok h = cc

  ops-merge :
      (lg l r : Log)
      → merge hash lg l ≡ ok r
      → ops_of r ≡ (if ltb (length (ops_of lg)) (length (ops_of l)) then ops_of l else ops_of lg)
  ops-merge lg l r e =
      ap (λ h. h.ops) (head-merge hash lg l r e)
      ∙ elim (Bool-cases (ltb (length (ops_of lg)) (length (ops_of l)))) [
        | inl t ↦ rw t refl
        | inr f ↦ rw f refl
      ]

  id_of_longer :
      (lg l r : Log)
      → id_of hash lg ≡ id_of hash l
      → ops_of r ≡ (if ltb (length (ops_of lg)) (length (ops_of l)) then ops_of l else ops_of lg)
      → id_of hash r ≡ id_of hash l
  id_of_longer lg l r same e = elim (Bool-cases (ltb (length (ops_of lg)) (length (ops_of l)))) [
    | inl t ↦ ap (id_of_ops hash) (rw t at e)
    | inr f ↦ ap (id_of_ops hash) (rw f at e) ∙ same
  ]

  -- Merging a log whose id the journal knows leaves a log of that id there, with the longer of
  -- the two sequences of operations, and the journal's own if they are of one length.
  pub get-merge_log :
      (j j' : Journal) (l : Log) {found : Log}
      → get hash j (id_of hash l) ≡ ok found
      → merge_log hash j l ≡ ok j'
      → (r : Log) × (get hash j' (id_of hash l) ≡ ok r)
        × (ops_of r
            ≡ (if ltb (length (ops_of found)) (length (ops_of l)) then ops_of l else ops_of found))
  unfolding merge_log merge_known get put_back
  get-merge_log j j' l {found} e m = elim (Bool-cases (is_empty (id_of hash l))) [
    | inl t ↦ absurd (err-ne-ok (rw t at m))
    | inr f ↦
        let known : merge_known hash j l (ok found) ≡ ok j' = rw e at (rw f at m) in
        let (r, er, put) =
          >>=-eq-ok (merge hash found l) (λ r. ok (put_back hash j (id_of hash l) r)) known in
        let ops = ops-merge found l r er in
        (
          r,
          subst (λ k. get hash k (id_of hash l) ≡ ok r) (ok_injective {E = Error} put)
              (find-replace_logs hash (id_of hash l) r j.logs
                (id_of_longer found l r (find_logs_id hash (id_of hash l) j.logs e) ops) e),
          ops,
        )
  ]
