-- ===== src/Api/Tests.antt =====
-- Runs on small data.
use qri.Base.{All, inl, arith, take, List, ◌≡◌, refl, [], ◌∷◌, Str, str, ok, none}
use qri.Base.{split, join}
use qri.Base.Int.{pos}
use qri.Dsref.Name.{is_upper}
use qri.Dsref.Generate.{trim_space, trim_left, is_space, lower_rune}
use qri.Api.Page.{page_offset, new_page_from_offset_and_limit, page_from_request}
use qri.Api.Reading.{IsPlain, new_order_by_from_string-order_by_string}
use qri.Api.Order.{
  Order, new_order, order_string, order_by_string, new_order_by_from_string, orders_of, orders_from,
}

abbrev ascending : Str → Order
ascending key = record { key = key; direction = str "asc" }

two_orders :
    new_order_by_from_string (str "a,ASC, b,asc") none
    ≡ ok (ascending (str "a") ∷ ascending (str "b") ∷ [])
unfolding new_order_by_from_string orders_of orders_from new_order split trim_space trim_left
    is_space lower_rune is_upper
two_orders = refl

-- Of three orders that are printed, the last is not read back.
drops_third :
    new_order_by_from_string
      (order_by_string (ascending (str "a") ∷ ascending (str "b") ∷ ascending (str "c") ∷ []))
      none
    ≡ ok (ascending (str "a") ∷ ascending (str "b") ∷ [])
unfolding order_by_string order_string join new_order_by_from_string orders_of orders_from new_order
    split trim_space trim_left is_space lower_rune is_upper
drops_third = refl

-- An offset inside a page moves to the beginning of the page.
moves_offset : page_offset (new_page_from_offset_and_limit (pos 25) (pos 20)) ≡ pos 20
unfolding page_offset new_page_from_offset_and_limit
moves_offset = refl

limits_size : (page_from_request (pos 0) (pos 1000)).size ≡ pos 100
unfolding page_from_request
limits_size = refl

abbrev three : List Order
three = ascending (str "a") ∷ ascending (str "b") ∷ ascending (str "c") ∷ []

three-IsPlain : All IsPlain three
unfolding trim_space trim_left is_space
three-IsPlain = (
  (ground arith, refl, inl refl),
  ((ground arith, refl, inl refl), ((ground arith, refl, inl refl), tt)),
)

new_order_by_from_string-order_by_string_example :
    new_order_by_from_string (order_by_string three) none ≡ ok (take 2 three)
new_order_by_from_string-order_by_string_example =
    new_order_by_from_string-order_by_string (ascending (str "a"))
      (ascending (str "b") ∷ ascending (str "c") ∷ []) three-IsPlain
