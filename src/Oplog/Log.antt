-- ===== src/Oplog/Log.antt =====
-- logbook/oplog/log.go: `Log`. A log is its fields (`Head`) and its children. The `parent` pointer
-- is the place in the tree. A log with no operations makes `Model`, and what calls it, panic.
use qri.Base.{
  ℕ, ◌≡◌, refl, ◌⊎◌, inl, inr, List, [], ◌∷◌, ◌++◌, Bool, not, ◌&&◌, Str, Result, ok, panic, ◌>>=◌,
  is_empty, any, ◌==◌, if◌then◌else◌, subst, ap, ok_injective, Bool-cases, sym, ◌∙◌, suc,
}
use qri.Oplog.Op.{Op, op_remove, empty_op}

pub data Error : Type 0 where
  not_found name_required empty_id subsets_not_finished : Error

-- `name` and `author_id` are caches: empty, or the value that `Name` and `Author` compute.
pub record Head : Type 0 where
  pub name : Str
  pub author_id : Str
  pub parent_id : Str
  pub signature : Str
  pub ops : List Op

mutual
  pub data Log : Type 0 where
    node : Head → Logs → Log

  pub data Logs : Type 0 where
    nil : Logs
    cons : Log → Logs → Logs

abbrev pub head : Log → Head
head (node h ls) = h

abbrev pub children : Log → Logs
children (node h ls) = ls

abbrev pub ops_of : Log → List Op
ops_of l = (head l).ops

abbrev pub append_logs : Logs → Logs → Logs
append_logs nil r = r
append_logs (cons l ls) r = cons l (append_logs ls r)

abbrev pub length_logs : Logs → ℕ
length_logs nil = 0
length_logs (cons l ls) = suc (length_logs ls)

abbrev pub init_log : Op → Log
init_log initop =
    node (record { name = []; author_id = []; parent_id = []; signature = []; ops = initop ∷ [] })
      nil

unfoldable pub model : List Op → Result Error ℕ
model [] = panic
model (o ∷ os) = ok o.model

-- The field of the last operation of the model that has one, else `found`.
unfoldable pub last_field : (Op → Str) → ℕ → Str → List Op → Str
last_field field m found [] = found
last_field field m found (o ∷ os) =
    last_field field m (if o.model == m && not (is_empty (field o)) then field o else found) os

unfoldable pub author : Head → Result Error Str
author h =
    if is_empty h.author_id
    then (do m ← model h.ops; ok (last_field (λ o. o.author_id) m [] h.ops))
    else ok h.author_id

unfoldable pub name_of : Head → Result Error Str
name_of h =
    if is_empty h.name
    then (do m ← model h.ops; ok (last_field (λ o. o.name) m [] h.ops))
    else ok h.name

-- The loop of `FirstOpAuthorID`.
unfoldable pub first_author : ℕ → List Op → Str
first_author m [] = []
first_author m (o ∷ os) =
    if o.model == m && not (is_empty o.author_id) then o.author_id else first_author m os

unfoldable pub first_op_author_id : Head → Result Error Str
first_op_author_id h = do m ← model h.ops; ok (first_author m h.ops)

unfoldable pub removed : Head → Result Error Bool
removed h = do m ← model h.ops; ok (any (λ o. o.model == m && o.op_type == op_remove) h.ops)

-- `Head`: the latest operation.
unfoldable pub latest : List Op → Op
latest [] = empty_op
latest (o ∷ []) = o
latest (o ∷ p ∷ os) = latest (p ∷ os)

unfoldable pub append : Op → Head → Result Error Head
append op h = do
  m ← model h.ops
  ok (record h {
    name = if op.model == m && not (is_empty op.name) then op.name else h.name;
    author_id = if op.model == m && not (is_empty op.author_id) then op.author_id else h.author_id;
    ops = h.ops ++ op ∷ [];
  })

-- A cache is empty, or holds what the operations give.
abbrev pub Caches : (Op → Str) → Str → List Op → Type 0
Caches field cached [] = cached ≡ []
Caches field cached (o ∷ os) = (cached ≡ []) ⊎ (cached ≡ last_field field o.model [] (o ∷ os))

pub record IsCoherent (h : Head) : Type 0 where
  pub names : Caches (λ o. o.name) h.name h.ops
  pub authors : Caches (λ o. o.author_id) h.author_id h.ops

last_field-append :
    (field : Op → Str) (m : ℕ) (found : Str) (os : List Op) (o : Op)
    → last_field field m found (os ++ o ∷ [])
      ≡ (if o.model == m && not (is_empty (field o)) then field o else last_field field m found os)
unfolding last_field
last_field-append field m found [] o = refl
last_field-append field m found (p ∷ os) o =
    last_field-append field m (if p.model == m && not (is_empty (field p)) then field p else found)
      os o

Caches-append :
    (field : Op → Str) (cached : Str) (o : Op) (os : List Op) (op : Op)
    → Caches field cached (o ∷ os)
    → Caches field
        (if op.model == o.model && not (is_empty (field op)) then field op else cached)
        (o ∷ os ++ op ∷ [])
Caches-append field cached o os op c =
    let e = last_field-append field o.model [] (o ∷ os) op in
    elim (Bool-cases (op.model == o.model && not (is_empty (field op)))) [
      | inl t ↦ rw t (inr (sym (rw t at e)))
      | inr f ↦ elim c [ inl p ↦ rw (f, p) (inl refl) | inr p ↦ rw f (inr (p ∙ sym (rw f at e))) ]
    ]

abbrev fields : Str → Str → Str → Str → List Op → Head
fields name author_id parent_id signature ops = record {
  name = name;
  author_id = author_id;
  parent_id = parent_id;
  signature = signature;
  ops = ops;
}

append-fields :
    (name author_id parent_id signature : Str) (ops : List Op) (op : Op) (h' : Head)
    → IsCoherent (fields name author_id parent_id signature ops)
    → append op (fields name author_id parent_id signature ops) ≡ ok h'
    → IsCoherent h'
unfolding append model
append-fields name author_id parent_id signature [] op h' c e = cc
append-fields name author_id parent_id signature (o ∷ os) op h' c e =
    subst IsCoherent (ok_injective {E = Error} e) (record {
      names = Caches-append (λ p. p.name) name o os op c.names;
      authors = Caches-append (λ p. p.author_id) author_id o os op c.authors;
    })

-- `Append` keeps the caches right.
pub append-IsCoherent : (op : Op) (h h' : Head) → IsCoherent h → append op h ≡ ok h' → IsCoherent h'
append-IsCoherent op h h' = append-fields h.name h.author_id h.parent_id h.signature h.ops op h'

name_of-fields :
    (name author_id parent_id signature : Str) (o : Op) (os : List Op)
    → Caches (λ p. p.name) name (o ∷ os)
    → name_of (fields name author_id parent_id signature (o ∷ os))
      ≡ ok (last_field (λ p. p.name) o.model [] (o ∷ os))
unfolding name_of model
name_of-fields [] author_id parent_id signature o os c = refl
name_of-fields (n ∷ name) author_id parent_id signature o os (inl e) = cc
name_of-fields (n ∷ name) author_id parent_id signature o os (inr e) = ap ok e

author-fields :
    (name author_id parent_id signature : Str) (o : Op) (os : List Op)
    → Caches (λ p. p.author_id) author_id (o ∷ os)
    → author (fields name author_id parent_id signature (o ∷ os))
      ≡ ok (last_field (λ p. p.author_id) o.model [] (o ∷ os))
unfolding author model
author-fields name [] parent_id signature o os c = refl
author-fields name (n ∷ author_id) parent_id signature o os (inl e) = cc
author-fields name (n ∷ author_id) parent_id signature o os (inr e) = ap ok e

-- With right caches, `Name` and `Author` are the last name and the last author that an operation
-- of the log's own model gave, whether they were cached or not.
pub name_of_lem :
    (h : Head) (o : Op) (os : List Op)
    → IsCoherent h
    → h.ops ≡ o ∷ os
    → (name_of h ≡ ok (last_field (λ p. p.name) o.model [] (o ∷ os)))
      × (author h ≡ ok (last_field (λ p. p.author_id) o.model [] (o ∷ os)))
name_of_lem h o os c e =
    let e' : h ≡ fields h.name h.author_id h.parent_id h.signature (o ∷ os) =
      ap (fields h.name h.author_id h.parent_id h.signature) e in
    let n : Caches (λ p. p.name) h.name (o ∷ os) = subst (Caches (λ p. p.name) h.name) e c.names in
    let a : Caches (λ p. p.author_id) h.author_id (o ∷ os) =
      subst (Caches (λ p. p.author_id) h.author_id) e c.authors in
    (
      ap name_of e' ∙ name_of-fields h.name h.author_id h.parent_id h.signature o os n,
      ap author e' ∙ author-fields h.name h.author_id h.parent_id h.signature o os a,
    )
