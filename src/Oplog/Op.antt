-- ===== src/Oplog/Op.antt =====
-- logbook/oplog/log.go: `Op` and its `Equal`. `Op.Hash` (blake2b over flatbuffer bytes, in base32)
-- is the parameter `hash` of the modules that use it.
use qri.Base.{
  ℕ, ◌≡◌, refl, ◌↔◌, List, [], Bool, true, ◌&&◌, Str, str_eq, str_eq_iff, length, ◌==◌, arith,
}
use qri.Base.Int.{ℤ, pos, eq_ℤ, eq_ℤ_iff}

-- `OpType` is a byte; a value that is none of the three is possible in data that was read.
abbrev pub OpType : Type 0
OpType = ℕ

abbrev pub op_init : OpType
op_init = 0x01

abbrev pub op_amend : OpType
op_amend = 0x02

abbrev pub op_remove : OpType
op_remove = 0x03

pub record Op : Type 0 where
  pub op_type : OpType
  pub model : ℕ
  pub ref : Str
  pub prev : Str
  pub relations : List Str
  pub name : Str
  pub author_id : Str
  pub timestamp : ℤ
  pub size : ℤ
  pub note : Str

-- `Op{}`
abbrev pub empty_op : Op
empty_op = record {
  op_type = 0;
  model = 0;
  ref = [];
  prev = [];
  relations = [];
  name = [];
  author_id = [];
  timestamp = pos 0;
  size = pos 0;
  note = [];
}

unfoldable pub op_equal : Op → Op → Bool
op_equal o b =
    o.op_type == b.op_type
    && o.model == b.model
    && str_eq o.ref b.ref
    && str_eq o.prev b.prev
    && length o.relations == length b.relations
    && str_eq o.name b.name
    && str_eq o.author_id b.author_id
    && eq_ℤ o.timestamp b.timestamp
    && eq_ℤ o.size b.size
    && str_eq o.note b.note

-- `Equal` compares the number of the relations and not what they are: two operations are equal
-- to it exactly when they differ in nothing but relations of the same number.
pub op_equal_iff :
    (o b : Op)
    → (op_equal o b ≡ true)
      ↔ ((record o { relations = b.relations } ≡ b) × (length o.relations ≡ length b.relations))
unfolding op_equal
op_equal_iff o b = ground (
  arith,
  str_eq_iff o.ref b.ref,
  str_eq_iff o.prev b.prev,
  str_eq_iff o.name b.name,
  str_eq_iff o.author_id b.author_id,
  str_eq_iff o.note b.note,
  eq_ℤ_iff o.timestamp b.timestamp,
  eq_ℤ_iff o.size b.size,
)

pub op_equal_refl : (o : Op) → op_equal o o ≡ true
op_equal_refl o = (op_equal_iff o o).1 (refl, refl)
