-- ===== src/Api/Page.antt =====
-- api/util/page.go. `ReqParamInt` is taken with the value that a request gives for each key; the
-- default sizes are the ones that the package sets. Products of an `int` are not cut off.
use qri.Base.{[], Bool, ◌||◌, Str, if◌then◌else◌}
use qri.Base.Int.{ℤ, pos, ltb_ℤ, ◌+ℤ◌, ◌-ℤ◌, ◌*ℤ◌, ◌/ℤ◌}

abbrev pub default_page_size : ℤ
default_page_size = pos 50

abbrev pub default_max_page_size : ℤ
default_max_page_size = pos 100

pub record Page : Type 0 where
  pub number : ℤ
  pub size : ℤ
  pub result_count : ℤ
  pub next_url : Str
  pub prev_url : Str

abbrev pub page_of : ℤ → ℤ → Page
page_of number size = record {
  number = number;
  size = size;
  result_count = pos 0;
  next_url = [];
  prev_url = [];
}

abbrev pub not_positive : ℤ → Bool
not_positive n = ltb_ℤ n (pos 1)

abbrev pub at_most_max : ℤ → ℤ
at_most_max size = if ltb_ℤ default_max_page_size size then default_max_page_size else size

unfoldable pub new_page : ℤ → ℤ → Page
new_page number size = page_of (if not_positive number then pos 1 else number) (at_most_max size)

-- `Offset`
unfoldable pub page_offset : Page → ℤ
page_offset p = (p.number -ℤ pos 1) *ℤ p.size

-- `Next`
unfoldable pub next_page : Page → Page
next_page p = record p { number = p.number +ℤ pos 1 }

-- `Prev`
unfoldable pub prev_page : Page → Page
prev_page p = record p { number = p.number -ℤ pos 1 }

unfoldable pub next_page_exists : Page → Bool
next_page_exists p = not_positive p.result_count || ltb_ℤ (p.number *ℤ p.size) p.result_count

unfoldable pub prev_page_exists : Page → Bool
prev_page_exists p = ltb_ℤ (pos 1) p.number

-- `PageFromRequest`, of a request with these numbers.
unfoldable pub page_from_request : ℤ → ℤ → Page
page_from_request number size =
    page_of (if not_positive number then pos 1 else number)
      (at_most_max (if not_positive size then default_page_size else size))

unfoldable pub new_page_from_offset_and_limit : ℤ → ℤ → Page
new_page_from_offset_and_limit offset limit =
    let size = if not_positive limit then default_page_size else limit in
    page_of (offset /ℤ size +ℤ pos 1) size
