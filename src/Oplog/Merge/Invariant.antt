-- ===== src/Oplog/Merge/Invariant.antt =====
-- What `Merge` keeps of every log of a tree.
use qri.Base.{
  ◌≡◌, refl, ◌≢◌, ◌⊎◌, inl, inr, List, [], ◌∷◌, Bool, true, Str, str_eq, Result, ok, length, ltb,
  arith, Bool-cases, none, some,
}
use qri.Oplog.Op.{Op, op_equal}
use qri.Oplog.Log.{Error, Head, Log, Logs, node, nil, cons, ops_of, IsCoherent, Caches}
use qri.Oplog.Tree.{id_of, add_to, add_child}
use qri.Oplog.Merge.{
  init_equal, merge_head, merge_into, matches_init, merge_one, merge, merge_children,
}

-- Every log of a tree satisfies `P`.
abbrev mutual
  pub AllHeads : (Head → Type 0) → Log → Type 0
  AllHeads P (node h ls) = P h × AllHeadsIn P ls

  pub AllHeadsIn : (Head → Type 0) → Logs → Type 0
  AllHeadsIn P nil = Unit
  AllHeadsIn P (cons l ls) = AllHeads P l × AllHeadsIn P ls

init_equal_total : (os ps : List Op) → os ≢ [] → ps ≢ [] → (b : Bool) × (init_equal os ps ≡ ok b)
unfolding init_equal
init_equal_total [] ps h k = absurd (h refl)
init_equal_total (o ∷ os) [] h k = absurd (k refl)
init_equal_total (o ∷ os) (p ∷ ps) h k = (op_equal o p, refl)

-- A property of the fields of a log that a merge keeps: it rules out logs with no operations.
pub record IsKept (P : Head → Type 0) : Type 0 where
  pub nonempty : (h : Head) → P h → h.ops ≢ []
  pub merged : (h k : Head) → P h → P k → P (merge_head h k)
  pub moved : (h : Head) (p : Str) → P h → P (record h { parent_id = p })

module _ (P : Head → Type 0) (kept : IsKept P) where
  ops-nonempty : (l : Log) → AllHeads P l → ops_of l ≢ []
  ops-nonempty (node h ls) w = kept.nonempty h w.0

  merge_into_keeps :
      (x : Log) (f : Log → Result Error Log)
      → ops_of x ≢ []
      → ((y : Log) → AllHeads P y → (r : Log) × (f y ≡ ok r) × AllHeads P r)
      → (ls : Logs) → AllHeadsIn P ls
      → (merge_into (matches_init x) f ls ≡ ok none)
        ⊎ ((ls' : Logs) × (merge_into (matches_init x) f ls ≡ ok (some ls')) × AllHeadsIn P ls')
  unfolding merge_into
  merge_into_keeps x f nx keep nil w = inl refl
  merge_into_keeps x f nx keep (cons y ys) w =
      let (b, e) = init_equal_total (ops_of x) (ops_of y) nx (ops-nonempty y w.0) in
      elim (Bool-cases b) [
        | inl t ↦ let (y', ey, wy) = keep y w.0 in inr (cons y' ys, rw (e, t, ey) refl, (wy, w.1))
        | inr n ↦ elim (merge_into_keeps x f nx keep ys w.1) [
          | inl later ↦ inl (rw (e, n, later) refl)
          | inr (zs, later, wz) ↦ inr (cons y zs, rw (e, n, later) refl, (w.0, wz))
        ]
      ]

  module _ (hash : Op → Str) where
    add_to_keeps :
        (l : Log) (ls : Logs) → AllHeads P l → AllHeadsIn P ls → AllHeadsIn P (add_to hash l ls)
    unfolding add_to
    add_to_keeps l nil wl w = (wl, tt)
    add_to_keeps l (cons ch ls) wl w = elim (Bool-cases (str_eq (id_of hash ch) (id_of hash l))) [
      | inl t ↦ elim (Bool-cases (ltb (length (ops_of ch)) (length (ops_of l)))) [
        | inl lt ↦ rw (t, lt) (wl, w.1)
        | inr ge ↦ rw (t, ge) w
      ]
      | inr f ↦ rw f (w.0, add_to_keeps l ls wl w.1)
    ]

    add_child_keeps : (l x : Log) → AllHeads P l → AllHeads P x → AllHeads P (add_child hash l x)
    unfolding add_child
    add_child_keeps (node h ls) (node k ks) w wx = (
      w.0,
      add_to_keeps (node (record k { parent_id = _ }) ks) ls (kept.moved k _ wx.0, wx.1) w.1,
    )

    merge_one_keeps :
        (x : Log) (f : Log → Result Error Log)
        → ((y : Log) → AllHeads P y → (r : Log) × (f y ≡ ok r) × AllHeads P r)
        → (lg : Log) → AllHeads P x
        → AllHeads P lg
        → (r : Log) × (merge_one hash f x lg ≡ ok r) × AllHeads P r
    unfolding merge_one
    merge_one_keeps x f keep (node h ls) wx w =
        elim (merge_into_keeps x f (ops-nonempty x wx) keep ls w.1) [
          | inl e ↦ (add_child hash (node h ls) x, rw e refl, add_child_keeps (node h ls) x w wx)
          | inr (ls', e, w') ↦ (node h ls', rw e refl, (w.0, w'))
        ]

    mutual
      unfolding merge

      -- Merging trees whose logs all satisfy `P` does not panic, and keeps `P` of every log.
      pub merge_keeps :
          (lg l : Log)
          → AllHeads P lg
          → AllHeads P l
          → (r : Log) × (merge hash lg l ≡ ok r) × AllHeads P r
      merge_keeps (node h ls) (node k ks) w wl =
          merge_children_keeps (node (merge_head h k) ls) ks (kept.merged h k w.0 wl.0, w.1) wl.1

      merge_children_keeps :
          (lg : Log) (xs : Logs)
          → AllHeads P lg
          → AllHeadsIn P xs
          → (r : Log) × (merge_children hash lg xs ≡ ok r) × AllHeads P r
      merge_children_keeps lg nil w wx = (lg, refl, w)
      merge_children_keeps lg (cons x xs) w wx =
          let (lg', e, w') =
            merge_one_keeps x (λ y. merge hash y x) (λ y wy. merge_keeps y x wy wx.0) lg wx.0 w in
          let (r, er, wr) = merge_children_keeps lg' xs w' wx.1 in (r, rw e er, wr)

-- A log of a journal has an operation, and its caches are right.
abbrev pub IsSound : Head → Type 0
IsSound h = (h.ops ≢ []) × IsCoherent h

Caches-nil : (field : Op → Str) (os : List Op) → Caches field [] os
Caches-nil field [] = refl
Caches-nil field (o ∷ os) = inl refl

longer-nonempty : (os ps : List Op) → ltb (length os) (length ps) ≡ true → ps ≢ []
longer-nonempty os [] h e = ground arith
longer-nonempty os (p ∷ ps) h e = cc

merge_head-IsSound : (h k : Head) → IsSound h → IsSound k → IsSound (merge_head h k)
unfolding merge_head
merge_head-IsSound h k w v = elim (Bool-cases (ltb (length h.ops) (length k.ops))) [
  | inl t ↦ rw t (
    v.0,
    record {
      names = Caches-nil (λ o. o.name) k.ops;
      authors = Caches-nil (λ o. o.author_id) k.ops;
    },
  )
  | inr f ↦ rw f w
]

IsSound-IsKept : IsKept IsSound
IsSound-IsKept = record {
  nonempty = λ h w. w.0;
  merged = merge_head-IsSound;
  moved = λ h p w. (w.0, record { names = w.1.names; authors = w.1.authors });
}

-- Merging two trees, each of whose logs has an operation and right caches, returns a tree of which
-- this holds again: no operation panics, and a name that a longer history changed is not read
-- from an old cache.
pub merge-IsSound :
    (hash : Op → Str) (lg l : Log)
    → AllHeads IsSound lg
    → AllHeads IsSound l
    → (r : Log) × (merge hash lg l ≡ ok r) × AllHeads IsSound r
merge-IsSound = merge_keeps IsSound IsSound-IsKept
