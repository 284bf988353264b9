-- ===== src/Oplog/Sparse.antt =====
-- logbook/oplog/log.go: `GetWithSparseAncestorsAllDescendants` on a journal. It sets the parent pointer of
-- the log object that the store holds to a copy of the parent, and a later call on the same object
-- begins there. The pointer is a field of the object: it is lost when the store gets another object
-- for the log. So it is not kept by id, but is part of the state of a call: `none` where it is nil,
-- or is the parent that AddChild set, which is the log of the parent's id.
use qri.Base.{
  ℕ, zero, suc, ◌≡◌, refl, List, [], ◌∷◌, Str, Result, ok, err, panic, ◌>>=◌, is_empty, ◌==◌,
  if◌then◌else◌, Option, none, some, ◌∙◌, true, false,
}
use qri.Oplog.Op.{Op}
use qri.Oplog.Log.{Error, Head, Log, node, nil, cons, head, children, length_logs}
use qri.Oplog.Tree.{id_of}
use qri.Oplog.Journal.{Journal, get, put_back, descendants}

-- The store, and the parent pointer of the object of the log that is asked for.
pub record SparseStore : Type 0 where
  pub journal : Journal
  pub pointer : Option Head

-- `if parent.Signature == nil { parent.Signature = cursor.Signature }`
abbrev pub with_signature : Str → Head → Head
with_signature s h = record h { signature = if is_empty h.signature then s else h.signature }

abbrev add_ancestor :
    Head → Option (Result Error (List Head) × Journal) → Option (Result Error (List Head) × Journal)
add_ancestor h none = none
add_ancestor h (some (ok hs, j)) = some (ok (h ∷ hs), j)
add_ancestor h (some (err e, j)) = some (err e, j)
add_ancestor h (some (panic, j)) = some (panic, j)

-- The copy that `cursor.parent` is set to; its only child is the cursor.
abbrev pub sparse_parent : Head → Head
sparse_parent h = record h { name = []; author_id = [] }

-- `Log.Parent` of the log: it has the log as its only child.
abbrev pub parent : Log × List Head → Option Log
parent (l, []) = none
parent (l, h ∷ hs) = some (node h (cons l nil))

module _ (hash : Op → Str) where
  -- The parent in the store, with the signature that it may get.
  abbrev pub sign_parent : Str → Log → Journal → Journal
  sign_parent s p j = put_back hash j (id_of hash p) (node (with_signature s (head p)) (children p))

  -- The loop, from a cursor whose parent pointer is nil: the ancestors from the nearest on. `none`
  -- means that the fuel ran out.
  unfoldable pub climb : ℕ → Head → Journal → Option (Result Error (List Head) × Journal)
  climb zero c j = none
  climb (suc f) c j =
      let more : Option (Result Error (List Head) × Journal) = elim (get hash j c.parent_id) [
        | err e ↦ some (err e, j)
        | panic ↦ some (panic, j)
        | ok p ↦
            let up = sparse_parent (with_signature c.signature (head p)) in
            add_ancestor up (climb f up (sign_parent c.signature p j))
      ] in
      if is_empty c.parent_id then some (ok [], j) else more

  -- `if len(l.Logs) == 0 { store.Descendants(l) }`
  unfoldable pub with_descendants : Journal → Log → Result Error Log
  with_descendants j l = if length_logs (children l) == 0 then descendants hash j l else ok l

  abbrev pub Got : Type 0
  Got = Option (Result Error (Log × List Head) × SparseStore)

  -- The parent pointer of the log is set before the loop goes on.
  abbrev pub attach : Log → Head → Option (Result Error (List Head) × Journal) → Got
  attach l up none = none
  attach l up (some (ok hs, j)) = some (ok (l, up ∷ hs), record { journal = j; pointer = some up })
  attach l up (some (err e, j)) = some (err e, record { journal = j; pointer = some up })
  attach l up (some (panic, j)) = some (panic, record { journal = j; pointer = some up })

  abbrev pub round_from_store : ℕ → Log → SparseStore → Result Error Log → Got
  round_from_store f l s (err e) = some (err e, s)
  round_from_store f l s panic = some (panic, s)
  round_from_store f l s (ok p) =
      let up = sparse_parent (with_signature (head l).signature (head p)) in
      attach l up (climb f up (sign_parent (head l).signature p s.journal))

  -- The first round, from the parent pointer that an earlier call set or from the store.
  abbrev pub first_round : ℕ → Log → SparseStore → Option Head → Got
  first_round f l s (some h) =
      let up = sparse_parent (with_signature (head l).signature h) in
      attach l up (climb f up s.journal)
  first_round f l s none = round_from_store f l s (get hash s.journal (head l).parent_id)

  abbrev pub climb_from : ℕ → SparseStore → Result Error Log → Got
  climb_from f s (err e) = some (err e, s)
  climb_from f s panic = some (panic, s)
  climb_from f s (ok l) =
      if is_empty (head l).parent_id then some (ok (l, []), s) else first_round f l s s.pointer

  -- The log with its ancestors, the nearest first.
  unfoldable pub get_sparse : ℕ → Str → SparseStore → Got
  get_sparse f id s = climb_from f s (get hash s.journal id >>= with_descendants s.journal)

  module _ (f : ℕ) (id : Str) where
    -- What a log is to be shared with: some children, and a parent of the given id.
    abbrev pub Below : Str → Journal → Log → Type 0
    Below pid j l =
        (get hash j id ≡ ok l)
        × ((length_logs (children l) == 0) ≡ false)
        × ((head l).parent_id ≡ pid)

    climb-top :
        (h : Head) (j : Journal) → is_empty h.parent_id ≡ true → climb (suc f) h j ≡ some (ok [], j)
    unfolding climb
    climb-top h j e = rw e refl

    get_sparse-first :
        (pid : Str) (s : SparseStore) (l : Log)
        → Below pid s.journal l
        → is_empty pid ≡ false
        → get_sparse (suc f) id s ≡ first_round (suc f) l s s.pointer
    unfolding get_sparse with_descendants
    get_sparse-first pid s l (found, some_below, e) deep =
        rw (found, some_below) (rw e (rw deep refl))

    -- Two calls for one log whose parent is a top log, where the object of the log is the same at both,
    -- with the parent pointer that the first call left, and is below the same parent, whatever else
    -- changed in the journal between them: the first gives the log below a copy of its parent. The
    -- second gives the operations of the parent as they were at the first call, whatever operations
    -- the parent has by then.
    pub get_sparse-stale :
        (pid : Str) (s : SparseStore) (j : Journal) (l m a : Log)
        → Below pid s.journal l
        → Below pid j m
        → is_empty pid ≡ false
        → s.pointer ≡ none
        → get hash s.journal pid ≡ ok a
        → is_empty (head a).parent_id ≡ true
        → (up : Head) × (again : Head) × (after : SparseStore) × (later : SparseStore) × (get_sparse
              (suc f)
              id
              s
            ≡ some (ok (l, up ∷ []), after))
          × (get_sparse (suc f) id (record after { journal = j })
              ≡ some (ok (m, again ∷ []), later))
          × (up.ops ≡ (head a).ops)
          × (again.ops ≡ (head a).ops)
    get_sparse-stale pid s j l m a below below' deep fresh found top =
        let up : Head = sparse_parent (with_signature (head l).signature (head a)) in
        let again : Head = sparse_parent (with_signature (head m).signature up) in
        (
          up,
          again,
          record { journal = sign_parent (head l).signature a s.journal; pointer = some up },
          record { journal = j; pointer = some again },
          get_sparse-first pid s l below deep
              ∙ rw (fresh, below.2, found) (rw (climb-top up _ top) refl),
          get_sparse-first pid _ m below' deep ∙ rw (climb-top again j top) refl,
          refl,
          refl,
        )
