-- ===== src/Logbook/History/Latest.antt =====
-- `latestSavePath`: the path that `ResolveRef` takes for the head of a dataset.
use qri.Base.{
  ℕ, ◌≡◌, refl, ◌≢◌, ◌⊎◌, inl, inr, List, [], ◌∷◌, ◌++◌, false, ◌&&◌, ◌||◌, Str, map, ◌-◌, Result,
  ok, err, panic, ◌>>=◌, length, ltb, ◌==◌, if◌then◌else◌, arith, suc, ◌+◌, Result-cases,
  ok_injective, ap, sym, ◌∙◌, >>=-eq-ok, length-append, take-append, append_assoc, append-nil, All,
  length-map, length-reverse, All-reverse, reverse, reverse-append, reverse-cons,
}
use qri.Base.Int.{pos}
use qri.Oplog.Op.{Op, op_init, op_amend, op_remove}
use qri.Logbook.Model.{Error, commit_model}
use qri.Logbook.History.{
  set_last, cut_last, last_or, latest_loop, latest_save_path, path_op, path_ops,
}

-- An operation that `latestSavePath` takes for a saved version.
abbrev pub IsSave : Op → Type 0
IsSave op = (op.model ≡ commit_model) × ((op.op_type ≡ op_init) ⊎ (op.op_type ≡ op_amend))

abbrev pub IsRemove : Op → Type 0
IsRemove op = (op.model ≡ commit_model) × (op.op_type ≡ op_remove)

module _ (s : Op) (rest : List Op) (w : IsSave s) where
  latest_loop_pass :
      (k : ℕ) → latest_loop (pos (suc (suc k))) (s ∷ rest) ≡ latest_loop (pos (suc k)) rest
  unfolding latest_loop
  latest_loop_pass k = ground arith

  latest_loop_one : latest_loop (pos 1) (s ∷ rest) ≡ s.ref
  unfolding latest_loop
  latest_loop_one = ground arith

  latest_loop_zero : latest_loop (pos 0) (s ∷ rest) ≡ s.ref
  unfolding latest_loop
  latest_loop_zero = ground arith

latest_loop_remove :
    (d : Op) (rest : List Op) (n : ℕ)
    → IsRemove d
    → d.size ≡ pos n
    → latest_loop (pos 0) (d ∷ rest) ≡ latest_loop (pos n) rest
unfolding latest_loop
latest_loop_remove d rest n w e = ground arith

-- With more removals to come than saves to pass, the saves are passed over.
latest_loop-saves :
    (k : ℕ) (saves rest : List Op)
    → All IsSave saves
    → latest_loop (pos (suc k + length saves)) (saves ++ rest) ≡ latest_loop (pos (suc k)) rest
latest_loop-saves k [] rest w = ap (λ n. latest_loop (pos n) rest) (omega arith)
latest_loop-saves k (s ∷ saves) rest w =
    ap (λ n. latest_loop (pos n) (s ∷ saves ++ rest)) (omega arith)
    ∙ latest_loop_pass s (saves ++ rest) w.0 (k + length saves)
    ∙ ap (λ n. latest_loop (pos n) (saves ++ rest)) (omega arith)
    ∙ latest_loop-saves k saves rest w.1

-- A commit that adds a version.
abbrev pub IsCommit : Op → Type 0
IsCommit op = (op.model ≡ commit_model) × (op.op_type ≡ op_init)

IsCommit-IsSave : (ops : List Op) → All IsCommit ops → All IsSave ops
IsCommit-IsSave [] w = tt
IsCommit-IsSave (o ∷ ops) w = ((w.0.0, inl w.0.1), IsCommit-IsSave ops w.1)

path_ops-append :
    (xs ys : List Op) (ps : List Str)
    → path_ops (xs ++ ys) ps ≡ (path_ops xs ps >>= λ qs. path_ops ys qs)
unfolding path_ops
path_ops-append [] ys ps = refl
path_ops-append (x ∷ xs) ys ps = elim (Result-cases (path_op x ps)) [
  | inl (qs, e) ↦ rw e (path_ops-append xs ys qs)
  | inr (inl (r, e)) ↦ rw e refl
  | inr (inr e) ↦ rw e refl
]

path_op_commit : (c : Op) (ps : List Str) → IsCommit c → path_op c ps ≡ ok (ps ++ c.ref ∷ [])
unfolding path_op
path_op_commit c ps w = ground arith

path_op_remove : (d : Op) (ps : List Str) → IsRemove d → path_op d ps ≡ cut_last d.size ps
unfolding path_op
path_op_remove d ps w = ground arith

cut_last_added : (ps qs : List Str) → cut_last (pos (length qs)) (ps ++ qs) ≡ ok ps
unfolding cut_last
cut_last_added ps qs =
    let e : length (ps ++ qs) - length qs ≡ length ps = omega (arith, length-append ps qs) in
    let le : ltb (length (ps ++ qs)) (length qs) ≡ false = ground (arith, length-append ps qs) in
    rw (le, e) (ap ok (take-append ps qs))

path_ops-commits :
    (cs : List Op) (ps : List Str)
    → All IsCommit cs
    → path_ops cs ps ≡ ok (ps ++ map (λ o. o.ref) cs)
unfolding path_ops
path_ops-commits [] ps w = ap ok (sym (append-nil ps))
path_ops-commits (c ∷ cs) ps w = rw (path_op_commit c ps w.0) (
    path_ops-commits cs (ps ++ c.ref ∷ []) w.1
    ∙ ap ok (append_assoc ps (c.ref ∷ []) (map (λ o. o.ref) cs)))

path_ops-remove :
    (d : Op) (ps qs : List Str)
    → IsRemove d
    → d.size ≡ pos (length qs)
    → path_ops (d ∷ []) (ps ++ qs) ≡ ok ps
unfolding path_ops
path_ops-remove d ps qs w e = rw (path_op_remove d (ps ++ qs) w, e, cut_last_added ps qs) refl

path_ops_saved :
    (cs : List Op) (d : Op) (ps : List Str)
    → All IsCommit cs
    → IsRemove d
    → d.size ≡ pos (length cs)
    → path_ops (cs ++ d ∷ []) ps ≡ ok ps
path_ops_saved cs d ps w wd e =
    rw (path_ops-append cs (d ∷ []) ps, path_ops-commits cs ps w)
      (path_ops-remove d ps (map (λ o. o.ref) cs) wd
        (e ∙ ap pos (sym (length-map (λ o. o.ref) cs))))

module _ (ops : List Op) (s : Op) (saves : List Op) (d : Op) where
  deleted_reversed : reverse (ops ++ (s ∷ saves ++ d ∷ [])) ≡ d ∷ (reverse saves ++ s ∷ reverse ops)
  deleted_reversed = simp (reverse-append, reverse-cons, append_assoc)

  -- After any operations, save some versions and delete exactly those. The paths that are left are
  -- those before the saves, and still `latestSavePath` gives the path of the first of the deleted
  -- versions.
  pub latest_save_path-deleted :
      IsCommit s
      → All IsCommit saves
      → IsRemove d
      → d.size ≡ pos (suc (length saves))
      → (path_ops (ops ++ (s ∷ saves ++ d ∷ [])) [] ≡ path_ops ops [])
        × (latest_save_path (ops ++ (s ∷ saves ++ d ∷ [])) ≡ s.ref)
  unfolding latest_save_path
  latest_save_path-deleted ws w wd e = (
    path_ops-append ops (s ∷ saves ++ d ∷ []) [] ∙ restored (path_ops ops []),
    ap (latest_loop (pos 0)) deleted_reversed
        ∙ latest_loop_remove d (reverse saves ++ s ∷ reverse ops) (suc (length saves)) wd e
        ∙ ap (λ n. latest_loop (pos n) (reverse saves ++ s ∷ reverse ops))
            (omega (arith, length-reverse saves))
        ∙ latest_loop-saves 0 (reverse saves) (s ∷ reverse ops)
            (All-reverse IsSave saves (IsCommit-IsSave saves w))
        ∙ latest_loop_one s (reverse ops) (ws.0, inl ws.1),
  )
    where
      restored : (m : Result Error (List Str)) → (m >>= λ qs. path_ops (s ∷ saves ++ d ∷ []) qs) ≡ m
      restored (ok qs) = path_ops_saved (s ∷ saves) d qs (ws, w) wd e
      restored (err r) = refl
      restored panic = refl

-- A commit op that is neither a deletion nor anything but a save.
abbrev pub NoRemove : Op → Type 0
NoRemove op = op.model ≡ commit_model → op.op_type ≢ op_remove

-- The ref of the last save, else `d`.
abbrev pub last_saved : Str → List Op → Str
last_saved d [] = d
last_saved d (op ∷ ops) =
    last_saved
      (if op.model == commit_model && (op.op_type == op_init || op.op_type == op_amend)
        then op.ref
        else d)
      ops

latest_loop_step :
    (op : Op) (rest : List Op)
    → NoRemove op
    → latest_loop (pos 0) (op ∷ rest) ≡ (
        if op.model == commit_model && (op.op_type == op_init || op.op_type == op_amend)
        then op.ref
        else latest_loop (pos 0) rest)
unfolding latest_loop
latest_loop_step op rest w = ground arith

latest_loop_reversed :
    (ops rest : List Op)
    → All NoRemove ops
    → latest_loop (pos 0) (reverse ops ++ rest) ≡ last_saved (latest_loop (pos 0) rest) ops
latest_loop_reversed [] rest w = refl
latest_loop_reversed (op ∷ ops) rest w =
    ap (latest_loop (pos 0))
      (ap (λ t. t ++ rest) (reverse-cons op ops) ∙ append_assoc (reverse ops) (op ∷ []) rest)
    ∙ latest_loop_reversed ops (op ∷ rest) w.1
    ∙ ap (λ t. last_saved t ops) (latest_loop_step op rest w.0)

last_or-append : {A : Type 0} (d x : A) (xs : List A) → last_or d (xs ++ x ∷ []) ≡ x
last_or-append d x [] = refl
last_or-append d x (y ∷ ys) = last_or-append y x ys

last_or-set_last :
    {A : Type 0} (d v : A) (xs : List A) {ys : List A}
    → set_last (λ _. v) xs ≡ ok ys
    → last_or d ys ≡ v
unfolding set_last
last_or-set_last d v [] e = cc
last_or-set_last d v (x ∷ []) {ys} e = ap (last_or d) (sym (ok_injective {E = Error} e))
last_or-set_last d v (x ∷ y ∷ xs) {ys} e =
    let (zs, rest, whole) = >>=-eq-ok (set_last (λ _. v) (y ∷ xs)) (λ zs. ok (x ∷ zs)) e in
    ap (last_or d) (sym (ok_injective {E = Error} whole)) ∙ last_or-set_last x v (y ∷ xs) rest

path_op_last :
    (op : Op) (ps : List Str) {qs : List Str}
    → NoRemove op
    → path_op op ps ≡ ok qs
    → last_or [] qs ≡ (
        if op.model == commit_model && (op.op_type == op_init || op.op_type == op_amend)
        then op.ref
        else last_or [] ps)
unfolding path_op
path_op_last op ps {qs} w e =
    ground (arith, last_or-append [] op.ref ps, last_or-set_last [] op.ref ps {ys = qs})

path_ops_last :
    (ops : List Op) (ps : List Str) {qs : List Str}
    → All NoRemove ops
    → path_ops ops ps ≡ ok qs
    → last_or [] qs ≡ last_saved (last_or [] ps) ops
unfolding path_ops
path_ops_last [] ps {qs} w e = ap (last_or []) (sym (ok_injective {E = Error} e))
path_ops_last (op ∷ ops) ps {qs} w e =
    let (rs, one, rest) = >>=-eq-ok (path_op op ps) (λ rs. path_ops ops rs) e in
    path_ops_last ops rs w.1 rest ∙ ap (λ t. last_saved t ops) (path_op_last op ps w.0 one)

latest_loop_nil : latest_loop (pos 0) [] ≡ []
unfolding latest_loop
latest_loop_nil = refl

-- In a history that deletes no version, `latestSavePath` is the last of the paths that the
-- history refers to, and empty if there is none.
pub latest_save_path_lem :
    (ops : List Op) {ps : List Str}
    → All NoRemove ops
    → path_ops ops [] ≡ ok ps
    → latest_save_path ops ≡ last_or [] ps
unfolding latest_save_path
latest_save_path_lem ops {ps} w e =
    ap (latest_loop (pos 0)) (sym (append-nil (reverse ops)))
    ∙ latest_loop_reversed ops [] w
    ∙ ap (λ d. last_saved d ops) latest_loop_nil
    ∙ sym (path_ops_last ops [] w e)

-- The path of a commit that was appended last is the latest.
pub latest_save_path-commit :
    (ops : List Op) (op : Op) → IsCommit op → latest_save_path (ops ++ op ∷ []) ≡ op.ref
unfolding latest_save_path
latest_save_path-commit ops op w =
    ap (latest_loop (pos 0)) (reverse-append ops (op ∷ []))
    ∙ latest_loop_zero op (reverse ops) (w.0, inl w.1)
