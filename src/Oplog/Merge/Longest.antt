-- ===== src/Oplog/Merge/Longest.antt =====
-- `Merge` keeps the longer operations.
use qri.Base.{
  ◌≡◌, refl, [], Str, Result, ok, length, ltb, if◌then◌else◌, arith, ok_injective, ap, sym, ◌∙◌,
  >>=-eq-ok,
}
use qri.Oplog.Op.{Op}
use qri.Oplog.Log.{Error, Log, Logs, node, nil, cons, head, ops_of}
use qri.Oplog.Tree.{add_child}
use qri.Oplog.Merge.{merge_head, merge_one, merge, merge_children}

module _ (hash : Op → Str) where
  head-add_child : (l x : Log) → head (add_child hash l x) ≡ head l
  unfolding add_child
  head-add_child (node h ls) x = refl

  head-merge_one :
      (f : Log → Result Error Log) (x lg r : Log) → merge_one hash f x lg ≡ ok r → head r ≡ head lg
  unfolding merge_one
  head-merge_one f x (node h ls) r e = ground (arith, head-add_child (node h ls) x)

  head-merge_children :
      (lg : Log) (xs : Logs) (r : Log) → merge_children hash lg xs ≡ ok r → head r ≡ head lg
  unfolding merge
  head-merge_children lg nil r e = ap head (sym (ok_injective {E = Error} e))
  head-merge_children lg (cons x xs) r e =
      let (lg', one, rest) =
        >>=-eq-ok (merge_one hash (λ y. merge hash y x) x lg) (λ lg'. merge_children hash lg' xs)
          e in
      head-merge_children lg' xs r rest ∙ head-merge_one (λ y. merge hash y x) x lg lg' one

  -- When a merge returns, the operations are those of the longer of the two logs, and the log's
  -- own if they are of one length; the caches and the signature of a log whose operations were
  -- replaced are dropped, and a log whose operations stay keeps all its fields.
  pub head-merge :
      (lg l r : Log)
      → merge hash lg l ≡ ok r
      → head r ≡ (
          if ltb (length (ops_of lg)) (length (ops_of l))
          then record (head lg) { ops = ops_of l; name = []; author_id = []; signature = [] }
          else head lg)
  unfolding merge merge_head
  head-merge (node h ls) (node k ks) r e = head-merge_children (node (merge_head h k) ls) ks r e
