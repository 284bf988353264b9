-- ===== src/Oplog/Tree.antt =====
-- logbook/oplog/log.go: finding logs in a tree by id and by name, and changing the log that a
-- found pointer leads to. Go hands out pointers into the tree: what a caller writes through one
-- is `replace_log` at the place where the search by id stopped, or `update_ref` at the place where
-- the search by names stopped. No log stands at two places of one tree.
use qri.Base.{
  ◌≡◌, refl, ◌⊎◌, inl, inr, List, [], ◌∷◌, Bool, true, false, not, Str, str_eq, str_eq_iff, Result,
  ok, err, panic, ◌>>=◌, length, ltb, if◌then◌else◌, arith, Bool-cases,
}
use qri.Oplog.Op.{Op}
use qri.Oplog.Log.{
  Error, not_found, Head, Log, Logs, node, nil, cons, head, ops_of, name_of, removed,
}

-- `log.Name() == name && !log.Removed()`
unfoldable pub is_live_named : Str → Head → Result Error Bool
is_live_named name h = do
  n ← name_of h
  let live = (do r ← removed h; ok (not r))
  if str_eq n name then live else ok false

-- `Log.HeadRef`; `head_ref_in` is its loop over the children.
unfoldable mutual
  pub head_ref : Log → List Str → Result Error Log
  head_ref (node h ls) [] = ok (node h ls)
  head_ref (node h ls) (name ∷ names) = head_ref_in ls name names

  pub head_ref_in : Logs → Str → List Str → Result Error Log
  head_ref_in nil name names = err not_found
  head_ref_in (cons l ls) name names =
      let here = head_ref l names in
      let later = head_ref_in ls name names in
      is_live_named name (head l) >>= λ found. if found then here else later

-- The tree after `f` was run on the log that `head_ref` finds.
unfoldable mutual
  pub update_ref : (Log → Result Error Log) → Log → List Str → Result Error Log
  update_ref f (node h ls) [] = f (node h ls)
  update_ref f (node h ls) (name ∷ names) = do ls' ← update_ref_in f ls name names; ok (node h ls')

  pub update_ref_in : (Log → Result Error Log) → Logs → Str → List Str → Result Error Logs
  update_ref_in f nil name names = err not_found
  update_ref_in f (cons l ls) name names =
      let here = (do l' ← update_ref f l names; ok (cons l' ls)) in
      let later = (do ls' ← update_ref_in f ls name names; ok (cons l ls')) in
      is_live_named name (head l) >>= λ found. if found then here else later

abbrev pub or_else : Result Error Log → Result Error Log → Result Error Log
or_else (ok l) other = ok l
or_else (err e) other = other
or_else panic other = panic

module _ (hash : Op → Str) where
  abbrev pub id_of_ops : List Op → Str
  id_of_ops [] = []
  id_of_ops (o ∷ os) = hash o

  -- `Log.ID`
  abbrev pub id_of : Log → Str
  id_of l = id_of_ops (ops_of l)

  -- `Log.Log`; `find_logs` is its loop over the children.
  unfoldable mutual
    pub find_log : Str → Log → Result Error Log
    find_log id (node h ls) =
        let below = find_logs id ls in
        if str_eq (id_of (node h ls)) id then ok (node h ls) else below

    pub find_logs : Str → Logs → Result Error Log
    find_logs id nil = err not_found
    find_logs id (cons l ls) = or_else (find_log id l) (find_logs id ls)

  abbrev is_found : Result Error Log → Bool
  is_found (ok l) = true
  is_found (err e) = false
  is_found panic = false

  -- The tree in which `new` stands where `find_log` stops.
  unfoldable mutual
    pub replace_log : Str → Log → Log → Log
    replace_log id new (node h ls) =
        let below = replace_logs id new ls in
        if str_eq (id_of (node h ls)) id then new else node h below

    pub replace_logs : Str → Log → Logs → Logs
    replace_logs id new nil = nil
    replace_logs id new (cons l ls) =
        let here = replace_log id new l in
        let later = replace_logs id new ls in
        if is_found (find_log id l) then cons here ls else cons l later

  -- The loop of `AddChild`: a child of the same id gives way to a longer one.
  unfoldable pub add_to : Log → Logs → Logs
  add_to l nil = cons l nil
  add_to l (cons ch ls) =
      let later = add_to l ls in
      if str_eq (id_of ch) (id_of l)
      then (if ltb (length (ops_of ch)) (length (ops_of l)) then cons l ls else cons ch ls)
      else cons ch later

  abbrev set_parent : Str → Log → Log
  set_parent id (node h ls) = node (record h { parent_id = id }) ls

  unfoldable pub add_child : Log → Log → Log
  unfolding add_to
  add_child (node h ls) l = node h (add_to (set_parent (id_of (node h ls)) l) ls)

  -- What is found by an id has the id.
  mutual
    unfolding find_log

    pub find_log_id : (id : Str) (l : Log) {r : Log} → find_log id l ≡ ok r → id_of r ≡ id
    find_log_id id (node h ls) {r} e =
        ground (arith, str_eq_iff (id_of_ops h.ops) id, find_logs_id id ls {r = r})

    pub find_logs_id : (id : Str) (ls : Logs) {r : Log} → find_logs id ls ≡ ok r → id_of r ≡ id
    find_logs_id id nil {r} e = cc
    find_logs_id id (cons l ls) {r} e =
        ground (arith, find_log_id id l {r = r}, find_logs_id id ls {r = r})

  -- A search never panics, and its one error is that there is no such log.
  mutual
    unfolding find_log

    pub find_log_total :
        (id : Str) (l : Log)
        → ((r : Log) × (find_log id l ≡ ok r)) ⊎ (find_log id l ≡ err not_found)
    find_log_total id (node h ls) = elim (Bool-cases (str_eq (id_of_ops h.ops) id)) [
      | inl t ↦ inl (node h ls, rw t)
      | inr f ↦ rw f (find_logs_total id ls)
    ]

    pub find_logs_total :
        (id : Str) (ls : Logs)
        → ((r : Log) × (find_logs id ls ≡ ok r)) ⊎ (find_logs id ls ≡ err not_found)
    find_logs_total id nil = inr refl
    find_logs_total id (cons l ls) = elim (find_log_total id l) [
      | inl (r, e) ↦ inl (r, rw e)
      | inr e ↦ rw e (find_logs_total id ls)
    ]

  pub find_log_self : (id : Str) (l : Log) → id_of l ≡ id → find_log id l ≡ ok l
  unfolding find_log
  find_log_self id (node h ls) e = rw ((str_eq_iff (id_of_ops h.ops) id).1 e)

  -- Writing a log of the same id where a search stops, and searching again, gives that log.
  mutual
    unfolding find_log replace_log

    pub find-replace_log :
        (id : Str) (new l : Log) {r : Log}
        → id_of new ≡ id
        → find_log id l ≡ ok r
        → find_log id (replace_log id new l) ≡ ok new
    find-replace_log id new (node h ls) {r} same e =
        elim (Bool-cases (str_eq (id_of_ops h.ops) id)) [
          | inl t ↦ rw t (find_log_self id new same)
          | inr f ↦ rw (f, f) (find-replace_logs id new ls same (rw f at e))
        ]

    pub find-replace_logs :
        (id : Str) (new : Log) (ls : Logs) {r : Log}
        → id_of new ≡ id
        → find_logs id ls ≡ ok r
        → find_logs id (replace_logs id new ls) ≡ ok new
    find-replace_logs id new nil same e = cc
    find-replace_logs id new (cons l ls) {r} same e = elim (find_log_total id l) [
      | inl (q, p) ↦ rw (p, find-replace_log id new l same p) refl
      | inr p ↦ rw (p, p) (find-replace_logs id new ls same (rw p at e))
    ]
