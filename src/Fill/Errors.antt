-- ===== src/Fill/Errors.antt =====
-- base/fill/error_collector.go: errors with the path of fields at which they were added.
use qri.Base.{
  ℕ, List, [], ◌∷◌, ◌++◌, Str, str, map, join, Option, none, some, is_empty, if◌then◌else◌,
}
use qri.Fill.Types.{Val}

pub data FillError : Type 0 where
  not_struct not_string_map : FillError
  bad_time unknown_field : Str → FillError
  need : (want : Str) → Val → FillError
  need_bytes need_slice need_array : Val → FillError
  bad_size : (want : ℕ) (got : ℕ) → FillError
  unknown_kind : FillError

pub record ErrorCollector : Type 0 where
  pub errs : List (List Str × FillError)
  pub fields : List Str

abbrev pub new_error_collector : ErrorCollector
new_error_collector = record { errs = []; fields = [] }

unfoldable pub add_error : FillError → ErrorCollector → ErrorCollector
add_error e c = record c { errs = c.errs ++ (c.fields, e) ∷ [] }

unfoldable pub push_field : Str → ErrorCollector → ErrorCollector
push_field name c = record c { fields = c.fields ++ name ∷ [] }

abbrev pub all_but_last : List Str → List Str
all_but_last [] = []
all_but_last (s ∷ []) = []
all_but_last (s ∷ t ∷ ss) = s ∷ all_but_last (t ∷ ss)

unfoldable pub pop_field : ErrorCollector → ErrorCollector
pop_field c = record c { fields = all_but_last c.fields }

module _ (message : FillError → Str) where
  abbrev pub error_text : List Str × FillError → Str
  error_text (path, e) =
      if is_empty path
      then message e
      else str "at " ++ b'"' ∷ (join b'.' path ++ b'"' ∷ (str ": " ++ message e))

  -- `AsSingleError`: the texts of several errors stand on lines of their own.
  unfoldable pub as_single_error : ErrorCollector → Option Str
  as_single_error c = if is_empty c.errs then none else some (join 10 (map error_text c.errs))
