-- ===== src/Oplog/Merge.antt =====
-- logbook/oplog/log.go: `Log.Merge`. The proofs are in the children.
pub mod Invariant
pub mod Longest
pub mod Idempotent
use qri.Base.{
  List, [], ◌∷◌, Bool, Str, Result, ok, panic, ◌>>=◌, length, ltb, if◌then◌else◌, Option, none,
  some,
}
use qri.Oplog.Op.{Op, op_equal}
use qri.Oplog.Log.{Error, Head, Log, Logs, node, nil, cons, head, children, ops_of}
use qri.Oplog.Tree.{add_child}

-- `x.Ops[0].Equal(y.Ops[0])`
unfoldable pub init_equal : List Op → List Op → Result Error Bool
init_equal [] os = panic
init_equal (o ∷ os) [] = panic
init_equal (o ∷ os) (p ∷ ps) = ok (op_equal o p)

-- The first part of `Merge`: the longer operations win, and what was cached is forgotten.
unfoldable pub merge_head : Head → Head → Head
merge_head h k =
    if ltb (length h.ops) (length k.ops)
    then record h { ops = k.ops; name = []; author_id = []; signature = [] }
    else h

-- The inner loop: the children after `f` was run on the first that matches, `none` if none does.
unfoldable pub merge_into :
    (matches : Log → Result Error Bool) (f : Log → Result Error Log)
    → Logs
    → Result Error (Option Logs)
merge_into matches f nil = ok none
merge_into matches f (cons y ys) =
    let here = (do y' ← f y; ok (some (cons y' ys))) in
    let later =
      merge_into matches f ys >>= λ r. ok (elim r [ none ↦ none | some zs ↦ some (cons y zs) ]) in
    matches y >>= λ m. if m then here else later

abbrev pub matches_init : Log → Log → Result Error Bool
matches_init x y = init_equal (ops_of x) (ops_of y)

module _ (hash : Op → Str) where
  -- One round of the outer loop: `f` merges `x` into the child that matches, or `x` is added.
  unfoldable pub merge_one : (f : Log → Result Error Log) → Log → Log → Result Error Log
  merge_one f x (node h ls) = do
    r ← merge_into (matches_init x) f ls
    elim r [ none ↦ ok (add_child hash (node h ls) x) | some ls' ↦ ok (node h ls') ]

  unfoldable mutual
    pub merge : Log → Log → Result Error Log
    merge lg (node k ks) = merge_children (node (merge_head (head lg) k) (children lg)) ks

    pub merge_children : Log → Logs → Result Error Log
    merge_children lg nil = ok lg
    merge_children lg (cons x xs) = merge_one (λ y. merge y x) x lg >>= λ lg'. merge_children lg' xs
