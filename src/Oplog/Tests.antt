-- ===== src/Oplog/Tests.antt =====
-- The theorems on logs at concrete logs. An operation's hash is its note.
use mathlib.Core.Path.{◌≡◌, refl}
use mathlib.Core.Logic.{◌≢◌, ◌⊎◌, inl, inr}
use qri.Oplog.Sparse.{SparseStore, get_sparse, get_sparse-stale}
use qri.Base.{
  none, false, is_empty, some, List, [], ◌∷◌, Str, str, ok, err, length, ltb, if◌then◌else◌,
}
use qri.Oplog.Op.{Op, op_init, op_amend, empty_op, op_equal}
use qri.Oplog.Log.{
  empty_id, Head, Log, node, nil, cons, head, ops_of, append, IsCoherent, name_of, last_field,
  model,
}
use qri.Oplog.Tree.{id_of, find_log, replace_log}
use qri.Oplog.Merge.{merge, merge_head, init_equal}
use qri.Oplog.Merge.Invariant.{AllHeads, IsSound, merge-IsSound}
use qri.Oplog.Merge.Idempotent.{IsDistinct, merge_idem}
use qri.Oplog.Journal.{Journal, get, merge_log, merge_known, put_back}
use qri.Oplog.Journal.Laws.{JournalIsSound, merge_log-IsSound, get-merge_log}

abbrev note_of : Op → Str
note_of o = o.note

abbrev begin : Op
begin = record empty_op {
  op_type = op_init;
  model = 1;
  name = str "cities";
  author_id = str "QmLena";
  note = str "a";
}

abbrev rename : Op
rename = record begin { op_type = op_amend; name = str "towns"; note = str "b" }

abbrev log_of : Str → List Op → Log
log_of name ops =
    node (record { name = name; author_id = []; parent_id = []; signature = []; ops = ops }) nil

abbrev short : Log
short = log_of (str "cities") (begin ∷ [])

abbrev long : Log
long = log_of [] (begin ∷ rename ∷ [])

short-IsCoherent : IsCoherent (head short)
unfolding last_field
short-IsCoherent = record { names = inr refl; authors = inl refl }

long-IsCoherent : IsCoherent (head long)
long-IsCoherent = record { names = inl refl; authors = inl refl }

abbrev renamed : Head
renamed = record {
  name = str "towns";
  author_id = str "QmLena";
  parent_id = [];
  signature = [];
  ops = begin ∷ rename ∷ [];
}

short-append : append rename (head short) ≡ ok renamed
unfolding append model
short-append = refl

long-name : name_of (head long) ≡ ok (str "towns")
unfolding name_of model last_field
long-name = refl

cons-ne-nil : {o : Op} {os : List Op} → o ∷ os ≢ []
cons-ne-nil h = cc

short-IsSound : AllHeads IsSound short
short-IsSound = ((cons-ne-nil, short-IsCoherent), tt)

long-IsSound : AllHeads IsSound long
long-IsSound = ((cons-ne-nil, long-IsCoherent), tt)

merge-IsSound_example : (r : Log) × (merge note_of short long ≡ ok r) × AllHeads IsSound r
merge-IsSound_example = merge-IsSound note_of short long short-IsSound long-IsSound

short-merge-long : merge note_of short long ≡ ok long
unfolding merge merge_head
short-merge-long = refl

-- A dataset with two branches.
abbrev branch : Str → Log
branch s = log_of [] (record begin { model = 2; name = s; note = s } ∷ [])

abbrev two_branches : Log
two_branches = node (head long) (cons (branch (str "main")) (cons (branch (str "dev")) nil))

two_branches-IsDistinct : IsDistinct two_branches
unfolding init_equal op_equal
two_branches-IsDistinct =
    (cons-ne-nil, ((cons-ne-nil, tt), (refl, tt), ((cons-ne-nil, tt), tt, tt)))

merge_idem_example : merge note_of two_branches two_branches ≡ ok two_branches
merge_idem_example = merge_idem note_of two_branches two_branches-IsDistinct

abbrev small : Journal
small = record { id = []; logs = cons short nil }

abbrev small_merged : Journal
small_merged = record { id = []; logs = cons long nil }

merge_log-IsSound_example :
    (merge_log note_of small long ≡ err empty_id) × (id_of note_of long ≡ [])
    ⊎ (is_empty (id_of note_of long) ≡ false)
      × ((j' : Journal) × (merge_log note_of small long ≡ ok j') × JournalIsSound j')
merge_log-IsSound_example = merge_log-IsSound note_of small long (short-IsSound, tt) long-IsSound

small-get : get note_of small (id_of note_of long) ≡ ok short
unfolding get find_log
small-get = refl

small-merge_log : merge_log note_of small long ≡ ok small_merged
unfolding merge_log merge_known get find_log merge merge_head put_back replace_log
small-merge_log = refl

get-merge_log_example :
    (r : Log) × (get note_of small_merged (id_of note_of long) ≡ ok r)
    × (ops_of r ≡ (
        if ltb (length (ops_of short)) (length (ops_of long)) then ops_of long else ops_of short))
get-merge_log_example = get-merge_log note_of small small_merged long small-get small-merge_log

abbrev an_author : Op
an_author = record begin { model = 0; name = str "lena"; note = str "au" }

abbrev author_with : List Op → Log → Log
author_with more l =
    node
      (record { name = []; author_id = []; parent_id = []; signature = []; ops = an_author ∷ more })
      (cons l nil)

abbrev a_dataset : Log
a_dataset =
    node
      (record { name = []; author_id = []; parent_id = str "au"; signature = []; ops = begin ∷ [] })
      (cons (branch (str "c")) nil)

abbrev before_rename : Journal
before_rename = record { id = str "au"; logs = cons (author_with [] a_dataset) nil }

abbrev after_rename : Journal
after_rename = record {
  id = str "au";
  logs =
      cons (author_with (record an_author { op_type = op_amend; name = str "mia" } ∷ []) a_dataset)
        nil;
}

finds_dataset :
    (get note_of before_rename (str "a") ≡ ok a_dataset)
    × (get note_of after_rename (str "a") ≡ ok a_dataset)
    × (get note_of before_rename (str "au") ≡ ok (author_with [] a_dataset))
unfolding get find_log
finds_dataset = (refl, refl, refl)

get_sparse-stale_example :
    (up : Head) × (again : Head) × (after : SparseStore) × (later : SparseStore) × (get_sparse
        note_of 1
        (str "a")
        (record { journal = before_rename; pointer = none })
      ≡ some (ok (a_dataset, up ∷ []), after))
    × (get_sparse note_of 1 (str "a") (record after { journal = after_rename })
        ≡ some (ok (a_dataset, again ∷ []), later))
    × (up.ops ≡ an_author ∷ [])
    × (again.ops ≡ an_author ∷ [])
get_sparse-stale_example =
    get_sparse-stale note_of 0 (str "a") (str "au")
      (record { journal = before_rename; pointer = none }) after_rename a_dataset a_dataset
      (author_with [] a_dataset) (finds_dataset.0, refl, refl) (finds_dataset.1, refl, refl) refl
      refl finds_dataset.2 refl
