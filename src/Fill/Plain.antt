-- ===== src/Fill/Plain.antt =====
-- base/fill/path_value.go: places to which no value is assigned.
use qri.Base.{
  ℕ, ◌≡◌, refl, List, [], ◌∷◌, Bool, true, false, Str, Result, ok, err, panic, Option, none, some,
}
use qri.Base.Int.{ℤ}
use qri.Base.Assoc.{insert}
use qri.Fill.Types.{
  packed, GoType, Val, Value, bool_type, int_type, int64_type, string_type, any_type, byte_type,
  ptr_type, null, bytes, list, string_map, any_map, dynamic, nothing, texts, table, listed,
}
use qri.Fill.Walk.{
  PathError, cannot_set, as_val, replace_item, Found, within, nth_item, nth_byte, map_lookup,
  any_map_lookup, or_stop, indexed, byte_at, through, val_step, find_in_val, text_step, table_step,
  map_step, path_step, find_target_at_path,
}

-- The types to which a value is assigned.
abbrev pub is_scalar : GoType → Bool
is_scalar bool_type = true
is_scalar int_type = true
is_scalar int64_type = true
is_scalar string_type = true
is_scalar (ptr_type t) = true
is_scalar t = false

-- Nothing is assigned there: by the type of the place, or since there is none.
pub data Plain : Found → Type 0 where
  of_type : {r : Found} → is_scalar r.target ≡ false → Plain r
  of_error : {r : Found} (e : PathError) → r.field ≡ err e → Plain r

pub not-Plain : {r : Found} → Plain r → is_scalar r.target ≡ true → (s : Str) → r.field ≡ ok s → ⊥
not-Plain (of_type h) p s q = cc
not-Plain (of_error e h) p s q = cc

within-Plain : (f : Value → Value) {r : Found} → Plain r → Plain (within f r)
within-Plain f (of_type h) = of_type h
within-Plain f (of_error e h) = of_error e h

or_stop-Plain {ℓ} :
    {A : Type ℓ} (f : Found) (next : A → Found)
    → Plain f
    → ((a : A) → Plain (next a))
    → (o : Option A) → Plain (or_stop f next o)
or_stop-Plain f next h k none = h
or_stop-Plain f next h k (some a) = k a

indexed-Plain :
    (t : GoType) (v : Value) (next : ℕ → Found)
    → is_scalar t ≡ false
    → ((i : ℕ) → Plain (next i))
    → (i : Result PathError ℕ) → Plain (indexed t v next i)
indexed-Plain t v next h k (ok i) = k i
indexed-Plain t v next h k (err e) = of_type h
indexed-Plain t v next h k panic = of_type h

pub byte-Plain :
    (rest : List Str) (whole : Value) (b : Str) (i : Result PathError ℕ)
    → Plain (byte_at rest whole b i)
byte-Plain rest whole b =
    indexed-Plain byte_type whole _ refl
      (λ i. or_stop-Plain _ _ (of_type refl) (λ c. of_type refl) (nth_byte i b))

module _ (to_lower : Str → Str) (parse_int : (bits : ℕ) → Str → Option ℤ) where
  val_step-Plain :
      (s : Str) (rest : List Str) (next : Val → Found) (v : Val)
      → ((u : Val) → Plain (next u))
      → Plain (val_step to_lower parse_int s rest next v)
  unfolding val_step
  val_step-Plain s rest next null h = of_type refl
  val_step-Plain s [] next (string_map m) h = of_type refl
  val_step-Plain s (r ∷ rest) next (string_map m) h =
      or_stop-Plain _ _ (of_type refl)
        (λ e.
          within-Plain (λ v. dynamic (string_map (packed (insert e.0 (as_val v) (listed m)))))
            (h e.1))
        (map_lookup to_lower s (listed m))
  val_step-Plain s [] next (any_map m) h = of_type refl
  val_step-Plain s (r ∷ rest) next (any_map m) h =
      or_stop-Plain _ _ (of_type refl)
        (λ e. within-Plain (λ v. dynamic (any_map (e.1 (as_val v)))) (h e.0))
        (any_map_lookup to_lower s m)
  val_step-Plain s rest next (list vs) h =
      indexed-Plain any_type (dynamic (list vs)) _ refl
        (λ i.
          or_stop-Plain _ _ (of_type refl)
            (λ u. within-Plain (λ v. dynamic (list (replace_item i (as_val v) vs))) (h u))
            (nth_item i vs))
        _
  val_step-Plain s rest next (bytes b) h = byte-Plain rest (dynamic (bytes b)) b _
  val_step-Plain s rest next v h = of_type refl

  pub find_in_val-Plain :
      (steps : List Str) (v : Val) → Plain (find_in_val to_lower parse_int steps v)
  unfolding find_in_val
  find_in_val-Plain [] v = of_type refl
  find_in_val-Plain (s ∷ rest) v =
      val_step-Plain s rest (find_in_val to_lower parse_int rest) v (find_in_val-Plain rest)

  text-Plain :
      (s : Str) (rest : List Str) (m : List (Str × Str))
      → Plain (text_step to_lower parse_int (find_target_at_path to_lower parse_int rest) s rest m)
  unfolding find_target_at_path through path_step
  text-Plain s [] m = of_type refl
  text-Plain s (r ∷ rest) m =
      or_stop-Plain _ _ (of_type refl) (λ e. of_error cannot_set refl) (map_lookup to_lower s m)

  table-Plain :
      (s : Str) (rest : List Str) (m : List (Str × Val))
      → Plain (table_step to_lower parse_int s rest m)
  table-Plain s [] m = of_type refl
  table-Plain s (r ∷ rest) m =
      or_stop-Plain _ _ (of_type refl)
        (λ e.
          within-Plain (λ v. table (insert e.0 (as_val v) m)) (find_in_val-Plain (r ∷ rest) e.1))
        (map_lookup to_lower s m)

  pub map_step-Plain :
      (s : Str) (rest : List Str) (t : GoType) (v : Value)
      → Plain (map_step to_lower parse_int (find_target_at_path to_lower parse_int rest) s rest t v)
  unfolding map_step
  map_step-Plain s rest string_type nothing = text-Plain s rest []
  map_step-Plain s rest string_type (texts m) = text-Plain s rest m
  map_step-Plain s rest any_type nothing = table-Plain s rest []
  map_step-Plain s rest any_type (table m) = table-Plain s rest m
  map_step-Plain s rest t v = of_type refl
