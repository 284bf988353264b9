-- ===== src/Api/Order.antt =====
-- api/util/order.go. A text is the list of its runes here.
use qri.Base.{
  ℕ, List, [], ◌∷◌, ◌++◌, Bool, true, not, ◌&&◌, Str, str, str_eq, map, Result, ok, panic, ◌>>=◌,
  length, is_empty, any, leb, ◌==◌, if◌then◌else◌, ◌+◌, Option, none, some,
}
use Prim.Native.Nat.{◌/◌, ◌%◌}
use qri.Base.{split, join}
use qri.Dsref.Generate.{trim_space, lower_rune}

pub record Order : Type 0 where
  pub key : Str
  pub direction : Str

abbrev pub order_asc : Str
order_asc = str "asc"

abbrev pub order_desc : Str
order_desc = str "desc"

unfoldable pub new_order : Str → Str → Order
new_order key direction = record {
  key = key;
  direction =
      if not (str_eq direction order_asc) && not (str_eq direction order_desc)
      then order_desc
      else direction;
}

-- `Order.String`
unfoldable pub order_string : Order → Str
order_string o = o.key ++ b',' ∷ o.direction

-- `OrderBy.String`
unfoldable pub order_by_string : List Order → Str
order_by_string os = join b',' (map order_string os)

-- Whether the key is taken: with no list of valid keys (`none`), every key is.
abbrev pub is_valid_key : Option (List Str) → Str → Bool
is_valid_key none key = true
is_valid_key (some keys) key = any (λ k. str_eq k key) keys

abbrev pub direction_of : Str → Str
direction_of text = if str_eq (map lower_rune text) order_asc then order_asc else order_desc

-- The loop, whose index `i` runs over even numbers while `i <= n`: `parts` begins at `i`. A missing
-- part is read as an index out of range.
unfoldable pub orders_from : Option (List Str) → ℕ → ℕ → List Str → Result (Unit {0}) (List Order)
orders_from keys n i (k ∷ d ∷ parts) =
    let rest = orders_from keys n (i + 2) parts in
    let key = trim_space k in
    if leb i n
    then (rest >>= λ os.
        ok (if is_valid_key keys key then new_order key (direction_of d) ∷ os else os))
    else ok []
orders_from keys n i short = if leb i n then panic else ok []

unfoldable pub orders_of : Option (List Str) → Str → List Str → Result (Unit {0}) (List Order)
orders_of keys text (part ∷ []) =
    ok (if is_empty text then [] else new_order (trim_space part) order_desc ∷ [])
orders_of keys text parts =
    if length parts % 2 == 1 then ok [] else orders_from keys (length parts / 2) 0 parts

unfoldable pub new_order_by_from_string : Str → Option (List Str) → Result (Unit {0}) (List Order)
new_order_by_from_string text keys = orders_of keys text (split b',' text)
