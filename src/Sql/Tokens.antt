-- ===== src/Sql/Tokens.antt =====
-- The scanner: the tokens that successive calls of `scan` return, `scanBuf` included. The rune 0 is
-- the end of the input wherever it stands. Positions are not modelled: nothing reads them.
use qri.Base.{ℕ, List, [], ◌∷◌, ◌++◌, Str, str, str_eq, map, is_empty, ◌==◌, if◌then◌else◌}
use qri.Dsref.Generate.{lower_rune, trim_space}

pub data TokenType : Type 0 where
  eof_tok text_tok comma_tok left_paren_tok right_paren_tok star_tok whitespace_tok : TokenType
  select_tok as_tok by_tok from_tok group_tok having_tok join_tok : TokenType
  limit_tok order_tok union_tok where_tok : TokenType

pub record Token : Type 0 where
  pub kind : TokenType
  pub text : Str

-- `unicode.ToLower`, where it gives an ASCII letter that a keyword has.
unfoldable pub lower_letter : ℕ → ℕ
lower_letter c = if c == 304 then 105 else lower_rune c

abbrev pub keywords : List (Str × TokenType)
keywords =
    (str "select", select_tok)
    ∷ (str "as", as_tok)
    ∷ (str "by", by_tok)
    ∷ (str "from", from_tok)
    ∷ (str "group", group_tok)
    ∷ (str "having", having_tok)
    ∷ (str "join", join_tok)
    ∷ (str "union", union_tok)
    ∷ (str "limit", limit_tok)
    ∷ (str "order", order_tok)
    ∷ (str "where", where_tok)
    ∷ []

unfoldable pub keyword_type : Str → List (Str × TokenType) → TokenType
keyword_type word [] = text_tok
keyword_type word ((k, t) ∷ ks) =
    let later = keyword_type word ks in if str_eq k word then t else later

-- `newTextualTok`
unfoldable pub textual : Str → Token
textual text =
    let word = trim_space text in
    record { kind = keyword_type (map lower_letter word) keywords; text = word }

abbrev pub symbol : TokenType → ℕ → Token
symbol t c = record { kind = t; text = c ∷ [] }

abbrev pub eof_token : Token
eof_token = record { kind = eof_tok; text = [] }

-- The text that was read before a symbol, if there is any, is a token before it.
abbrev pub flushed : Str → List Token → List Token
flushed text ts = if is_empty text then ts else textual text ∷ ts

-- The loop of `scan`: `text` is what the builder holds. A star and a tab are returned without it,
-- and the next call empties the builder.
unfoldable pub tokens_from : Str → Str → List Token
tokens_from text [] = flushed text []
tokens_from text (c ∷ cs) =
    let fresh = tokens_from [] cs in
    let skip = tokens_from text cs in
    let more = tokens_from (text ++ c ∷ []) cs in
    if c == 13
    then skip
    else if c == 10
    then flushed text (symbol whitespace_tok c ∷ fresh)
    else if c == b'('
    then flushed text (symbol left_paren_tok c ∷ fresh)
    else if c == b')'
    then flushed text (symbol right_paren_tok c ∷ fresh)
    else if c == b','
    then flushed text (symbol comma_tok c ∷ fresh)
    else if c == b'*'
    then symbol star_tok c ∷ fresh
    else if c == 9
    then symbol whitespace_tok c ∷ fresh
    else if c == b' '
    then flushed text (symbol whitespace_tok c ∷ fresh)
    else if c == 0
    then flushed text (eof_token ∷ fresh)
    else more

unfoldable pub tokens : Str → List Token
tokens text = tokens_from [] text

-- The texts of the tokens, one behind the other.
unfoldable pub texts : List Token → Str
texts [] = []
texts (t ∷ ts) = t.text ++ texts ts
