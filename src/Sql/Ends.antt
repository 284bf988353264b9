-- ===== src/Sql/Ends.antt =====
-- The passes over the tokens end: the fuel that `query` gives is enough for every text.
use qri.Base.{
  ℕ, zero, ◌≢◌, List, [], ◌∷◌, Bool, true, false, Str, length, ◌==◌, if◌then◌else◌, arith, suc, ◌<◌,
}
use qri.Base.Int.{ℤ, pos, eq_ℤ}
use qri.Sql.Tokens.{
  TokenType, Token, eof_tok, text_tok, comma_tok, left_paren_tok, right_paren_tok, star_tok,
  whitespace_tok, select_tok, as_tok, by_tok, from_tok, join_tok, tokens,
}
use qri.Sql.Rewrite.{
  Processor, Exit, done, out_of_fuel, failed, Progress, then_go, write, deeper, shallower,
  references, table_refs, new_processor,
}
use qri.Sql.Select.{bare_column, column_reference, selects, process_exit, next_column, dots, query}
use qri.Sql.TableRefs.{
  Ends, weaken, returns, when-Ends, then_go-Ends, ignore_error-Ends, tok, table_ref-Ends,
}

-- Both functions end on every list that is shorter than the fuel.
abbrev BothEnd : ℕ → Type 0
BothEnd f =
    (n : ℤ) (p : Processor) (ts : List Token)
    → length ts < f
    → Ends ts (references f n p ts) × Ends ts (table_refs f n p ts)

-- A call on the tokens behind the first, and then the loop on what it left.
call-Ends :
    (f : ℕ) (t : Token) (ts : List Token) (r : Progress) (next : Processor → List Token → Progress)
    → length (t ∷ ts) < suc f
    → Ends ts r
    → ((p : Processor) (us : List Token) → length us < f → Ends us (next p us))
    → Ends (t ∷ ts) (then_go r next)
call-Ends f t ts r next h w v =
    then_go-Ends (t ∷ ts) ts r next w (omega arith)
      (λ p us k. weaken us (t ∷ ts) (next p us) (omega arith) (v p us (omega arith)))

references_token :
    (f : ℕ)
    → BothEnd f
    → (n : ℤ) (p : Processor) (k : TokenType) (s : Str) (ts : List Token)
    → length (tok k s ∷ ts) < suc f
    → Ends (tok k s ∷ ts) (references (suc f) n p (tok k s ∷ ts))
unfolding references
references_token f both n p from_tok s ts h =
    call-Ends f _ ts _ (references f n) h (both p.nesting (write s p) ts (omega arith)).1
      (λ q us k. (both n q us k).0)
references_token f both n p join_tok s ts h =
    call-Ends f _ ts _ (references f n) h (both p.nesting (write s p) ts (omega arith)).1
      (λ q us k. (both n q us k).0)
references_token f both n p left_paren_tok s ts h =
    let inner = deeper (write s p) in
    call-Ends f _ ts _ (references f n) h (both inner.nesting inner ts (omega arith)).0
      (λ q us k. (both n q us k).0)
references_token f both n p right_paren_tok s ts h =
    let outer = shallower (write s p) in
    when-Ends _ (eq_ℤ outer.nesting n) _ _ outer (returns _ (λ k. cc) (omega arith))
      (λ q. weaken ts _ _ (omega arith) (both n q ts (omega arith)).0)
references_token f both n p eof_tok s ts h = (returns _ (λ k. cc) (omega arith))
references_token f both n p other s ts h =
    weaken ts _ _ (omega arith) (both n (write s p) ts (omega arith)).0

references_step :
    (f : ℕ)
    → BothEnd f
    → (n : ℤ) (p : Processor) (ts : List Token) → length ts < suc f
    → Ends ts (references (suc f) n p ts)
unfolding references
references_step f both n p [] h = (returns _ (λ k. cc) (omega arith))
references_step f both n p (t ∷ ts) h = references_token f both n p t.kind t.text ts h

table_refs_token :
    (f : ℕ)
    → BothEnd f
    → (n : ℤ) (p : Processor) (k : TokenType) (s : Str) (ts : List Token)
    → length (tok k s ∷ ts) < suc f
    → Ends (tok k s ∷ ts) (table_refs (suc f) n p (tok k s ∷ ts))
unfolding references
table_refs_token f both n p text_tok s ts h =
    call-Ends f _ ts _ (table_refs f n) h (table_ref-Ends s p ts) (λ q us k. (both n q us k).1)
table_refs_token f both n p left_paren_tok s ts h =
    let inner = deeper (write s p) in
    call-Ends f _ ts _ (table_refs f n) h (both inner.nesting inner ts (omega arith)).0
      (λ q us k. (both n q us k).1)
table_refs_token f both n p right_paren_tok s ts h =
    let outer = shallower (write s p) in
    when-Ends _ (eq_ℤ outer.nesting n) _ _ outer (returns _ (λ k. cc) (omega arith)) (λ q.
      call-Ends f _ ts _ (table_refs f n) h (ignore_error-Ends ts _ (table_ref-Ends [] q ts))
        (λ q us k. (both n q us k).1))
table_refs_token f both n p whitespace_tok s ts h =
    weaken ts _ _ (omega arith) (both n (write s p) ts (omega arith)).1
table_refs_token f both n p star_tok s ts h =
    weaken ts _ _ (omega arith) (both n (write s p) ts (omega arith)).1
table_refs_token f both n p select_tok s ts h =
    weaken ts _ _ (omega arith) (both n (write s p) ts (omega arith)).1
table_refs_token f both n p as_tok s ts h =
    weaken ts _ _ (omega arith) (both n (write s p) ts (omega arith)).1
table_refs_token f both n p by_tok s ts h =
    weaken ts _ _ (omega arith) (both n (write s p) ts (omega arith)).1
table_refs_token f both n p from_tok s ts h =
    weaken ts _ _ (omega arith) (both n (write s p) ts (omega arith)).1
table_refs_token f both n p join_tok s ts h =
    weaken ts _ _ (omega arith) (both n (write s p) ts (omega arith)).1
table_refs_token f both n p other s ts h = (returns _ (λ k. cc) (omega arith))

table_refs_step :
    (f : ℕ)
    → BothEnd f
    → (n : ℤ) (p : Processor) (ts : List Token) → length ts < suc f
    → Ends ts (table_refs (suc f) n p ts)
unfolding references
table_refs_step f both n p [] h = (returns _ (λ k. cc) (omega arith))
table_refs_step f both n p (t ∷ ts) h = table_refs_token f both n p t.kind t.text ts h

both_end : (f : ℕ) → BothEnd f
both_end zero n p ts h = absurd (omega arith)
both_end (suc f) n p ts h =
    (references_step f (both_end f) n p ts h, table_refs_step f (both_end f) n p ts h)

module _ (is_numeric : Str → Bool) where
  abbrev Ended : Processor × Exit → Type 0
  Ended r = r.1 ≢ out_of_fuel

  if-Ended : (b : Bool) (r s : Processor × Exit) → Ended r → Ended s → Ended (if b then r else s)
  if-Ended true r s w v = w
  if-Ended false r s w v = v

  bare_column-Ended :
      (col : Str) (p : Processor) (aliases : List Str)
      → Ended (bare_column is_numeric col p aliases)
  unfolding bare_column
  bare_column-Ended col p [] e = cc
  bare_column-Ended col p (a ∷ []) e = cc
  bare_column-Ended col p (a ∷ b ∷ more) e = cc

  column_reference-Ended : (col : Str) (p : Processor) → Ended (column_reference is_numeric col p)
  unfolding column_reference
  column_reference-Ended col p =
      if-Ended (is_numeric col) _ _ (λ e. cc)
        (if-Ended (dots col == 0) _ _ (bare_column-Ended col p p.aliases)
          (if-Ended (dots col == 1) _ _ (λ e. cc) (λ e. cc)))

  -- A column, and then the columns behind it if it had no error.
  column-Ended :
      (r : Processor × Exit) (next : Processor → Processor × Exit)
      → Ended r
      → ((p : Processor) → Ended (next p))
      → Ended (next_column is_numeric r next)
  column-Ended (p, done) next w v = v p
  column-Ended (p, out_of_fuel) next w v = w
  column-Ended (p, failed e) next w v = w

  selects_token :
      (b : Bool) (p : Processor) (k : TokenType) (s : Str) (ts : List Token)
      → ((c : Bool) (q : Processor) → Ended (selects is_numeric c q ts))
      → Ended (selects is_numeric b p (tok k s ∷ ts))
  unfolding selects
  selects_token true p text_tok s ts ih =
      column-Ended (column_reference is_numeric s p) _ (column_reference-Ended s p) (ih true)
  selects_token true p eof_tok s ts ih = ih false p
  selects_token true p select_tok s ts ih = ih true (write s p)
  selects_token true p comma_tok s ts ih = ih true (write s p)
  selects_token true p left_paren_tok s ts ih = ih true (write s p)
  selects_token true p right_paren_tok s ts ih = ih true (write s p)
  selects_token true p star_tok s ts ih = ih true (write s p)
  selects_token true p whitespace_tok s ts ih = ih true (write s p)
  selects_token true p keyword s ts ih = ih false (write s p)
  selects_token false p select_tok s ts ih = ih true (write s p)
  selects_token false p eof_tok s ts ih = λ e. cc
  selects_token false p other s ts ih = ih false (write s p)

  selects-Ended : (ts : List Token) (b : Bool) (p : Processor) → Ended (selects is_numeric b p ts)
  unfolding selects
  selects-Ended [] true p = λ e. cc
  selects-Ended [] false p = λ e. cc
  selects-Ended (t ∷ ts) b p = selects_token b p t.kind t.text ts (λ c q. selects-Ended ts c q)

  process_exit-Ended :
      (e : Exit) (r : Progress) → e ≢ out_of_fuel → Ended (process_exit is_numeric e r)
  unfolding process_exit
  process_exit-Ended done r w = selects-Ended (tokens r.state.processed) false _
  process_exit-Ended out_of_fuel r w = w
  process_exit-Ended (failed e) r w = w

  -- `Query` ends on every text: both passes reach the end of their tokens, the search for a table
  -- name finds one, and the answer is a result or an error of the text.
  pub query_ends : (text : Str) → (query is_numeric text).2 ≢ out_of_fuel
  unfolding query
  query_ends text =
      let ts = tokens text in
      let r = references (suc (length ts)) (pos 0) new_processor ts in
      process_exit-Ended r.exit r
        (both_end (suc (length ts)) (pos 0) new_processor ts (omega arith)).0.ends
