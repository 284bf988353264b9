-- ===== src/Fill/Reading.antt =====
-- base/fill/path_value.go: what GetPathValue gives after SetPathValue.
use qri.Base.{
  ℕ, ◌≡◌, refl, [], true, Str, split, Result, ok, err, panic, Option, none, some, ◌∙◌, ◌∷◌, sym, ap,
}
use qri.Base.Int.{ℤ}
use qri.Fill.Types.{GoType, Val, Value, bool_type, int_type, int64_type, string_type, ptr_type}
use qri.Fill.Errors.{FillError, ErrorCollector}
use qri.Fill.Put.{Go, put_value}
use qri.Fill.Walk.{PathError, Found, find_target_at_path}
use qri.Fill.Paths.{
  put_done, put_coerced, set_at, get_at, coerce, assign, set_path_value, get_path_value,
}
use qri.Fill.Plain.{is_scalar}
use qri.Fill.Again.{find_target-Again}

module _ (go : Go) (parse_int : (bits : ℕ) → Str → Option ℤ) where
  coerce-scalar : (t : GoType) (v w : Val) → coerce go parse_int t v ≡ ok w → is_scalar t ≡ true
  unfolding coerce
  coerce-scalar bool_type v w h = refl
  coerce-scalar int_type v w h = refl
  coerce-scalar int64_type v w h = refl
  coerce-scalar string_type v w h = refl
  coerce-scalar (ptr_type t) v w h = refl
  coerce-scalar t v w h = cc

  -- What was put, where putting ends without an error.
  put_done-ok :
      (r : Found) (o : Option (Value × ErrorCollector)) (whole : Value)
      → put_done r o ≡ (whole, ok tt)
      → (placed : Value) × (c : ErrorCollector) × (o ≡ some (placed, c)) × (r.back placed ≡ whole)
  put_done-ok r none whole h = cc
  put_done-ok r (some (v, c)) whole h = (v, c, refl, ap (λ x. x.0) h)

  put_coerced-ok :
      (c : ErrorCollector) (r : Found) (m : Result FillError Val) (whole : Value)
      → put_coerced go parse_int c r m ≡ (whole, ok tt)
      → (w : Val) × (placed : Value) × (c' : ErrorCollector) × (m ≡ ok w)
        × (put_value go r.target w r.place c ≡ some (placed, c'))
        × (r.back placed ≡ whole)
  put_coerced-ok c r (ok w) whole h =
      let (placed, c', e, b) = put_done-ok r (put_value go r.target w r.place c) whole h in
      (w, placed, c', refl, e, b)
  put_coerced-ok c r (err e) whole h = cc
  put_coerced-ok c r panic whole h = cc

  set_at-ok :
      (v : Val) (c : ErrorCollector) (r : Found) (field : Result PathError Str) (whole : Value)
      → field ≡ ok []
      → set_at go parse_int v c r field ≡ (whole, ok tt)
      → put_coerced go parse_int c r (coerce go parse_int r.target v) ≡ (whole, ok tt)
  unfolding assign
  set_at-ok v c r (ok []) whole p h = h
  set_at-ok v c r (ok (b ∷ s)) whole p h = cc
  set_at-ok v c r (err e) whole p h = cc
  set_at-ok v c r panic whole p h = cc

  get_at-found :
      (r : Found) (field : Result PathError Str) (placed : Value)
      → field ≡ ok []
      → r.place ≡ placed
      → get_at go parse_int r field ≡ ok placed
  get_at-found r (ok []) placed p e = ap ok e
  get_at-found r (ok (b ∷ s)) placed p e = cc
  get_at-found r (err e) placed p h = cc
  get_at-found r panic placed p h = cc

  -- A path whose place is no entry of a map: what SetPathValue put there without an error, the
  -- value as it was converted to the type of the place, GetPathValue gives.
  pub get-set_path_value :
      (path : Str) (v : Val) (t : GoType) (output whole : Value)
      → (find_target_at_path go.to_lower parse_int (split b'.' path) t output).field ≡ ok []
      → set_path_value go parse_int path v t output ≡ (whole, ok tt)
      → (w : Val) × (placed : Value) × (c : ErrorCollector) × (coerce go parse_int
            (find_target_at_path go.to_lower parse_int (split b'.' path) t output).target
            v
          ≡ ok w)
        × (put_value go
              (find_target_at_path go.to_lower parse_int (split b'.' path) t output).target
              w
              (find_target_at_path go.to_lower parse_int (split b'.' path) t output).place
              (record { errs = []; fields = split b'.' path })
            ≡ some (placed, c))
        × ((get_path_value go parse_int path t whole).1 ≡ ok placed)
  unfolding set_path_value get_path_value
  get-set_path_value path v t output whole p h =
      let r = find_target_at_path go.to_lower parse_int (split b'.' path) t output in
      let c : ErrorCollector = record { errs = []; fields = split b'.' path } in
      let (w, placed, c', e, put, b) =
        put_coerced-ok c r (coerce go parse_int r.target v) whole
          (set_at-ok v c r r.field whole p h) in
      let (typed, same, f) =
        find_target-Again go.to_lower parse_int (split b'.' path) t output []
          (coerce-scalar r.target v w e) p placed in
      (
        w,
        placed,
        c',
        e,
        put,
        rw (sym b) (
            get_at-found
              (find_target_at_path go.to_lower parse_int (split b'.' path) t (r.back placed)) _
              placed (f ∙ p) same),
      )
