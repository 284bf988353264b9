-- ===== src/Sql/Select.antt =====
-- The second pass of `Process`, over the columns of each select, and `Query`. `strconv.ParseFloat` is
-- the parameter `is_numeric`.
use qri.Base.{
  ℕ, List, [], ◌∷◌, ◌++◌, Bool, true, false, ◌||◌, Str, length, ◌==◌, if◌then◌else◌, suc, reverse,
}
use qri.Base.Int.{pos}
use qri.Sql.Tokens.{
  Token, eof_tok, text_tok, select_tok, as_tok, by_tok, from_tok, group_tok, having_tok, join_tok,
  limit_tok, order_tok, union_tok, where_tok, tokens,
}
use qri.Sql.Rewrite.{
  Processor, Exit, done, failed, Progress, ambiguous_column, illegal_column, write, new_processor,
  references,
}

-- `strings.Count(s, ".")`
unfoldable pub dots : Str → ℕ
dots [] = 0
dots (c ∷ cs) = let later = dots cs in if c == b'.' then suc later else later

abbrev pub is_quote : ℕ → Bool
is_quote c = c == 39 || c == 34

unfoldable pub trim_left_quotes : Str → Str
trim_left_quotes [] = []
trim_left_quotes (c ∷ cs) = let later = trim_left_quotes cs in if is_quote c then later else c ∷ cs

-- `strings.Trim(s, "'\"")`
unfoldable pub trim_quotes : Str → Str
trim_quotes s = reverse (trim_left_quotes (reverse (trim_left_quotes s)))

module _ (is_numeric : Str → Bool) where
  unfoldable pub bare_column : Str → Processor → List Str → Processor × Exit
  bare_column col p (alias ∷ []) = (write (alias ++ 46 ∷ trim_quotes col) p, done)
  bare_column col p other = (p, failed (ambiguous_column col))

  unfoldable pub column_reference : Str → Processor → Processor × Exit
  column_reference col p =
      if is_numeric col
      then (write col p, done)
      else if dots col == 0
      then bare_column col p p.aliases
      else if dots col == 1
      then (write col p, done)
      else (p, failed (illegal_column col))

  abbrev pub next_column : Processor × Exit → (Processor → Processor × Exit) → Processor × Exit
  next_column (p, done) next = next p
  next_column (p, e) next = (p, e)

  -- `processSelects` where `in_select` is false, the loop of `processSelectCols` where it is true.
  unfoldable pub selects : Bool → Processor → List Token → Processor × Exit
  selects in_select p [] = (p, done)
  selects true p (t ∷ ts) = elim t.kind [
    | text_tok ↦ next_column (column_reference t.text p) (λ p. selects true p ts)
    | select_tok ↦ selects true (write t.text p) ts
    | as_tok ↦ selects false (write t.text p) ts
    | by_tok ↦ selects false (write t.text p) ts
    | from_tok ↦ selects false (write t.text p) ts
    | group_tok ↦ selects false (write t.text p) ts
    | having_tok ↦ selects false (write t.text p) ts
    | join_tok ↦ selects false (write t.text p) ts
    | limit_tok ↦ selects false (write t.text p) ts
    | order_tok ↦ selects false (write t.text p) ts
    | union_tok ↦ selects false (write t.text p) ts
    | where_tok ↦ selects false (write t.text p) ts
    | eof_tok ↦ selects false p ts
    | other ↦ selects true (write t.text p) ts
  ]
  selects false p (t ∷ ts) = elim t.kind [
    | select_tok ↦ selects true (write t.text p) ts
    | eof_tok ↦ (p, done)
    | other ↦ selects false (write t.text p) ts
  ]

  -- `Process`: a `references` call consumes a token of the input for each unit of fuel.
  unfoldable pub process_exit : Exit → Progress → Processor × Exit
  process_exit done r =
      selects false (record (r.state) { processed = [] }) (tokens r.state.processed)
  process_exit e r = (r.state, e)

  unfoldable pub query : Str → Str × List (Str × Str) × Exit
  query text =
      let ts = tokens text in
      let r = references (suc (length ts)) (pos 0) new_processor ts in
      let (p, e) = process_exit r.exit r in (p.processed, p.mapping, e)
