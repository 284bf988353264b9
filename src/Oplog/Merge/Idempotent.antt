-- ===== src/Oplog/Merge/Idempotent.antt =====
-- Merging a log into itself changes nothing.
use qri.Base.{◌≡◌, refl, ◌≢◌, List, [], ◌∷◌, true, false, Str, Result, ok, arith, ap, subst, some}
use qri.Oplog.Op.{Op, op_equal_refl}
use qri.Oplog.Log.{Error, Head, Log, Logs, node, nil, cons, ops_of, append_logs}
use qri.Oplog.Merge.{
  init_equal, merge_head, merge_into, matches_init, merge_one, merge, merge_children,
}

-- No log of the list begins with the operation that `x` begins with.
abbrev Misses : Log → Logs → Type 0
Misses x nil = Unit
Misses x (cons y ys) = (init_equal (ops_of x) (ops_of y) ≡ ok false) × Misses x ys

-- No log of the list begins with the operation that `y` begins with.
abbrev pub MissedBy : Log → Logs → Type 0
MissedBy y nil = Unit
MissedBy y (cons x xs) = (init_equal (ops_of x) (ops_of y) ≡ ok false) × MissedBy y xs

abbrev AllMiss : Logs → Logs → Type 0
AllMiss pre nil = Unit
AllMiss pre (cons x xs) = Misses x pre × AllMiss pre xs

-- In the whole tree no log is without operations, and no two children of one log begin with
-- operations that `Equal` takes for one.
abbrev mutual
  pub IsDistinct : Log → Type 0
  IsDistinct (node h ls) = (h.ops ≢ []) × IsDistinctIn ls

  pub IsDistinctIn : Logs → Type 0
  IsDistinctIn nil = Unit
  IsDistinctIn (cons l ls) = IsDistinct l × MissedBy l ls × IsDistinctIn ls

Misses-append :
    (x y : Log) (pre : Logs)
    → Misses x pre
    → init_equal (ops_of x) (ops_of y) ≡ ok false
    → Misses x (append_logs pre (cons y nil))
Misses-append x y nil m e = (e, tt)
Misses-append x y (cons p pre) m e = (m.0, Misses-append x y pre m.1 e)

AllMiss-append :
    (y : Log) (pre xs : Logs)
    → AllMiss pre xs
    → MissedBy y xs
    → AllMiss (append_logs pre (cons y nil)) xs
AllMiss-append y pre nil m e = tt
AllMiss-append y pre (cons x xs) m e =
    (Misses-append x y pre m.0 e.0, AllMiss-append y pre xs m.1 e.1)

AllMiss-nil : (xs : Logs) → AllMiss nil xs
AllMiss-nil nil = tt
AllMiss-nil (cons x xs) = (tt, AllMiss-nil xs)

append_logs_cons :
    (pre xs : Logs) (x : Log)
    → append_logs (append_logs pre (cons x nil)) xs ≡ append_logs pre (cons x xs)
append_logs_cons nil xs x = refl
append_logs_cons (cons p pre) xs x = ap (cons p) (append_logs_cons pre xs x)

init_equal_same : (os : List Op) → os ≢ [] → init_equal os os ≡ ok true
unfolding init_equal
init_equal_same [] d = absurd (d refl)
init_equal_same (o ∷ os) d = ap ok (op_equal_refl o)

init_equal_self : (l : Log) → IsDistinct l → init_equal (ops_of l) (ops_of l) ≡ ok true
init_equal_self (node h ls) d = init_equal_same h.ops d.0

merge_head_self : (h : Head) → merge_head h h ≡ h
unfolding merge_head
merge_head_self h = ground arith

merge_into_self :
    (x : Log) (f : Log → Result Error Log) (pre xs : Logs)
    → IsDistinct x
    → f x ≡ ok x
    → Misses x pre
    → merge_into (matches_init x) f (append_logs pre (cons x xs))
      ≡ ok (some (append_logs pre (cons x xs)))
unfolding merge_into
merge_into_self x f nil xs d e m = rw (init_equal_self x d, e) refl
merge_into_self x f (cons p pre) xs d e m = rw (m.0, merge_into_self x f pre xs d e m.1) refl

module _ (hash : Op → Str) where
  mutual
    unfolding merge merge_one

    merge_self : (l : Log) → IsDistinct l → merge hash l l ≡ ok l
    merge_self (node h ls) d =
        rw merge_head_self (merge_children_self h nil ls d.1 (AllMiss-nil ls))

    merge_children_self :
        (h : Head) (pre xs : Logs)
        → IsDistinctIn xs
        → AllMiss pre xs
        → merge_children hash (node h (append_logs pre xs)) xs ≡ ok (node h (append_logs pre xs))
    merge_children_self h pre nil d m = refl
    merge_children_self h pre (cons x xs) d m =
        rw (merge_into_self x (λ y. merge hash y x) pre xs d.0 (merge_self x d.0) m.0) (
          subst (λ ls. merge_children hash (node h ls) xs ≡ ok (node h ls))
            (append_logs_cons pre xs x)
            (merge_children_self h (append_logs pre (cons x nil)) xs d.2
              (AllMiss-append x pre xs m.1 d.1)))

  -- Merging a log into itself returns it as it was, where no two children of one log begin alike.
  pub merge_idem : (l : Log) → IsDistinct l → merge hash l l ≡ ok l
  merge_idem = merge_self
