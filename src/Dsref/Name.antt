-- ===== src/Dsref/Name.antt =====
-- dsref/parse.go: the names that datasets and users may have. A regular expression is a test on
-- the bytes of the text; `unicode.IsUpper` is read on ASCII, which the expressions leave.
use qri.Base.{
  ℕ, [], ◌∷◌, Bool, false, not, ◌&&◌, ◌||◌, Str, Result, ok, err, panic, ◌>>◌, reject, length, any,
  leb, ◌==◌, all,
}

pub data NameError : Type 0 where
  describe_valid_name bad_case_name describe_valid_username bad_case_username : NameError

abbrev pub within : ℕ → ℕ → ℕ → Bool
within lo hi c = leb lo c && leb c hi

unfoldable pub is_upper : ℕ → Bool
is_upper c = within b'A' b'Z' c

unfoldable pub is_lower : ℕ → Bool
is_lower c = within b'a' b'z' c

unfoldable pub is_digit : ℕ → Bool
is_digit c = within b'0' b'9' c

-- `[a-zA-Z]`
unfoldable pub is_letter : ℕ → Bool
unfolding is_upper is_lower
is_letter c = is_lower c || is_upper c

-- `[\w-]`
unfoldable pub is_word : ℕ → Bool
unfolding is_letter is_digit
is_word c = is_letter c || is_digit c || c == b'_' || c == b'-'

-- `^[a-zA-Z][\w-]{0,143}$`
unfoldable pub is_valid_name : Str → Bool
is_valid_name [] = false
is_valid_name (c ∷ cs) = is_letter c && all is_word cs && leb (length cs) 143

unfoldable pub ensure_valid_name : Str → Result NameError (Unit {0})
ensure_valid_name text = do
  reject (not (is_valid_name text)) describe_valid_name
  reject (any is_upper text) bad_case_name

-- The error of `EnsureValidName`, as one about a user name.
unfoldable pub username_error : NameError → NameError
username_error describe_valid_name = describe_valid_username
username_error bad_case_name = bad_case_username
username_error e = e

unfoldable pub ensure_valid_username : Str → Result NameError (Unit {0})
ensure_valid_username text = elim (ensure_valid_name text) [
  | ok u ↦ ok u
  | err e ↦ err (username_error e)
  | panic ↦ panic
]
