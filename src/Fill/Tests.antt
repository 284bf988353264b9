-- ===== src/Fill/Tests.antt =====
-- Structures filled with small data.
use qri.Base.{◌≡◌, refl, List, [], ◌∷◌, false, All, Str, str, split, none, some}
use qri.Base.Int.{pos}
use qri.Base.Decimal.{itoa, digits}
use qri.Fill.Types.{
  FieldTypes, Val, Value, string_type, slice_type, struct_type, no_fields, field, null, int, text,
  list, no_items, item, words, sequence, nothing, structure, nil, cons, zero_value, HasType,
  of_struct, of_string, nil_slice, have_cons, have_nil,
}
use qri.Fill.Errors.{need, unknown_field, add_error, push_field, pop_field}
use qri.Fill.Put.{
  Go, put_value, put_fields, put_field, put_string, put_slice, fill_slice, put_unknown, key_for,
  lower_name, fill_struct,
}
use qri.Fill.Fits.{fits_fields, Settled, Typed}
use qri.Fill.Typed.{fill_struct-HasType}
use qri.Fill.Named.{field_keys, Known, fill_struct-Known}

abbrev pub sample_go : Go
sample_go = record {
  to_lower = λ s. s;
  sprint = λ v. [];
  int_of_float = λ n. pos n;
  uint_of_float = λ n. n;
  float_of_int = λ n. 0;
  parse_time = λ s. none;
}

-- A name and a list of keywords.
abbrev keywords : FieldTypes
keywords =
    field (str "name") [] string_type
      (field (str "Words") (str "words,omitempty") (slice_type string_type) no_fields)

abbrev blank : Value
blank = structure (cons (words []) (cons nothing nil)) []

abbrev named : List (Str × Val)
named =
    (str "name", text (str "cities")) ∷ (str "words", list (item (text (str "a")) no_items)) ∷ []

fills :
    fill_struct sample_go named (struct_type false keywords) blank
    ≡ some (
      structure (cons (words (str "cities")) (cons (sequence (cons (words (str "a")) nil)) nil)) [],
      record { errs = []; fields = [] },
    )
unfolding fill_struct put_value put_fields put_field put_string put_slice fill_slice put_unknown
    key_for lower_name split push_field pop_field zero_value itoa digits
fills = refl

-- The errors keep the path of the field.
notes_errors :
    fill_struct sample_go
      ((str "name", int (pos 3)) ∷ (str "size", null) ∷ [])
      (struct_type false keywords)
      blank
    ≡ some (
      blank,
      record {
        errs =
            (str "name" ∷ [], need (str "string") (int (pos 3)))
            ∷ ([], unknown_field (str "size"))
            ∷ [];
        fields = [];
      },
    )
unfolding fill_struct put_value put_fields put_field put_string put_unknown key_for lower_name split
    push_field pop_field add_error
notes_errors = refl

-- `["a", null]` for a list of texts panics.
null_in_list :
    fill_struct sample_go
      ((str "words", list (item null no_items)) ∷ [])
      (struct_type false keywords)
      blank
    ≡ none
unfolding fill_struct put_value put_fields put_field put_string put_slice fill_slice key_for
    lower_name split push_field zero_value
null_in_list = refl

-- The value of an empty key goes to every field that the data does not name.
empty_key :
    fill_struct sample_go
      (([], text (str "cities")) ∷ [])
      (struct_type false (field (str "name") [] string_type no_fields))
      (structure (cons (words []) nil) [])
    ≡ some (structure (cons (words (str "cities")) nil) [], record { errs = []; fields = [] })
unfolding fill_struct put_value put_fields put_field put_string put_unknown key_for lower_name
    push_field pop_field
empty_key = refl

blank-HasType : HasType (struct_type false keywords) blank
blank-HasType = of_struct _ [] (have_cons _ _ (of_string []) (have_cons _ _ nil_slice have_nil))

fill_struct-HasType_example :
    Settled
      (fits_fields sample_go keywords named)
      (Typed (struct_type false keywords))
      (fill_struct sample_go named (struct_type false keywords) blank)
fill_struct-HasType_example = fill_struct-HasType sample_go false keywords named blank blank-HasType

fill_struct-Known_example : All (Known (field_keys sample_go keywords named)) named
fill_struct-Known_example =
    fill_struct-Known sample_go keywords named (cons (words []) (cons nothing nil)) [] fills refl
