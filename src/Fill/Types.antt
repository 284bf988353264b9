-- ===== src/Fill/Types.antt =====
-- base/fill/struct.go: what `reflect` shows of the types and values that are filled, and the decoded
-- data. A map is a list of its entries in the order in which Go visits it; a float is the number
-- of its 64 bits, a time is its text.
use qri.Base.{ℕ, List, [], ◌∷◌, Bool, Str, ◌≡◌, zero, suc}
use qri.Base.Int.{ℤ, pos}

-- `reflect.Type`: a map has texts as keys, a structure may have the method `SetArbitrary`.
mutual
  pub data GoType : Type 0 where
    bool_type int_type int64_type uint64_type float64_type string_type : GoType
    any_type time_type byte_type other_type : GoType
    map_type slice_type ptr_type : GoType → GoType
    array_type : ℕ → GoType → GoType
    struct_type : (sets_arbitrary : Bool) → FieldTypes → GoType

  -- Of each field the name, the tag `json` and the type. All fields are exported; a structure with
  -- others, which reflection shows but does not set, is not modelled.
  pub data FieldTypes : Type 0 where
    no_fields : FieldTypes
    field : (name : Str) (tag : Str) → GoType → FieldTypes → FieldTypes

-- `interface{}`: `any_map` is `map[interface{}]interface{}`, which YAML gives.
mutual
  pub data Val : Type 0 where
    null : Val
    boolean : Bool → Val
    int int64 : ℤ → Val
    uint uint64 float : ℕ → Val
    text bytes : Str → Val
    list : Items → Val
    string_map : Entries → Val
    any_map : AnyEntries → Val

  pub data Items : Type 0 where
    no_items : Items
    item : Val → Items → Items

  pub data Entries : Type 0 where
    no_entries : Entries
    entry : Str → Val → Entries → Entries

  pub data AnyEntries : Type 0 where
    no_any : AnyEntries
    any_entry : Val → Val → AnyEntries → AnyEntries

-- What a `reflect.Value` holds: `nothing` is a nil map, slice or pointer.
mutual
  pub data Value : Type 0 where
    flag : Bool → Value
    integer : ℤ → Value
    natural real : ℕ → Value
    words binary moment : Str → Value
    dynamic : Val → Value
    nothing : Value
    texts : List (Str × Str) → Value
    table : List (Str × Val) → Value
    sequence : Values → Value
    pointer : Value → Value
    structure : Values → (arbitrary : List (Str × Val)) → Value

  pub data Values : Type 0 where
    nil : Values
    cons : Value → Values → Values

abbrev pub count : Values → ℕ
count nil = 0
count (cons v vs) = suc (count vs)

abbrev pub size : Items → ℕ
size no_items = 0
size (item v vs) = suc (size vs)

abbrev pub listed : Entries → List (Str × Val)
listed no_entries = []
listed (entry k v m) = (k, v) ∷ listed m

abbrev pub packed : List (Str × Val) → Entries
packed [] = no_entries
packed ((k, v) ∷ m) = entry k v (packed m)

abbrev pub repeat : ℕ → Value → Values
repeat zero v = nil
repeat (suc n) v = cons v (repeat n v)

-- The value that `reflect.New` gives.
unfoldable mutual
  pub zero_value : GoType → Value
  zero_value bool_type = flag Bool.false
  zero_value int_type = integer (pos 0)
  zero_value int64_type = integer (pos 0)
  zero_value uint64_type = natural 0
  zero_value float64_type = real 0
  zero_value string_type = words []
  zero_value any_type = dynamic null
  zero_value time_type = moment []
  zero_value byte_type = natural 0
  zero_value other_type = nothing
  zero_value (map_type t) = nothing
  zero_value (slice_type t) = nothing
  zero_value (ptr_type t) = nothing
  zero_value (array_type n t) = sequence (repeat n (zero_value t))
  zero_value (struct_type a fs) = structure (zero_fields fs) []

  pub zero_fields : FieldTypes → Values
  zero_fields no_fields = nil
  zero_fields (field name tag t fs) = cons (zero_value t) (zero_fields fs)

-- A value of the type.
mutual
  pub data HasType : GoType → Value → Type 0 where
    of_bool : (b : Bool) → HasType bool_type (flag b)
    of_int : (n : ℤ) → HasType int_type (integer n)
    of_int64 : (n : ℤ) → HasType int64_type (integer n)
    of_uint64 : (n : ℕ) → HasType uint64_type (natural n)
    of_float64 : (n : ℕ) → HasType float64_type (real n)
    of_string : (s : Str) → HasType string_type (words s)
    of_any : (v : Val) → HasType any_type (dynamic v)
    of_time : (s : Str) → HasType time_type (moment s)
    of_byte : (n : ℕ) → HasType byte_type (natural n)
    of_other : HasType other_type nothing
    nil_map : {t : GoType} → HasType (map_type t) nothing
    nil_slice : {t : GoType} → HasType (slice_type t) nothing
    nil_ptr : {t : GoType} → HasType (ptr_type t) nothing
    of_texts : (m : List (Str × Str)) → HasType (map_type string_type) (texts m)
    of_table : (m : List (Str × Val)) → HasType (map_type any_type) (table m)
    of_bytes : (s : Str) → HasType (slice_type byte_type) (binary s)
    of_slice : {t : GoType} (vs : Values) → AllHave t vs → HasType (slice_type t) (sequence vs)
    of_array :
        {n : ℕ} {t : GoType} (vs : Values)
        → AllHave t vs
        → count vs ≡ n
        → HasType (array_type n t) (sequence vs)
    of_ptr : {t : GoType} (v : Value) → HasType t v → HasType (ptr_type t) (pointer v)
    of_struct :
        {a : Bool} {fs : FieldTypes} (vs : Values) (m : List (Str × Val))
        → FieldsHave fs vs
        → HasType (struct_type a fs) (structure vs m)

  pub data AllHave : GoType → Values → Type 0 where
    all_nil : {t : GoType} → AllHave t nil
    all_cons :
        {t : GoType} (v : Value) (vs : Values) → HasType t v → AllHave t vs → AllHave t (cons v vs)

  pub data FieldsHave : FieldTypes → Values → Type 0 where
    have_nil : FieldsHave no_fields nil
    have_cons :
        {name tag : Str} {t : GoType} {fs : FieldTypes} (v : Value) (vs : Values)
        → HasType t v
        → FieldsHave fs vs
        → FieldsHave (field name tag t fs) (cons v vs)
