-- ===== src/Sql/TableRefs.antt =====
-- Calls that end, with no more tokens than they were given, and those for one table among them.
use qri.Base.{
  ◌≡◌, refl, ◌≢◌, List, [], ◌∷◌, Bool, true, false, Str, length, is_empty, if◌then◌else◌, arith,
  suc, ◌≤◌, ap,
}
use qri.Sql.Tokens.{TokenType, Token, text_tok, comma_tok, whitespace_tok, as_tok}
use qri.Sql.Rewrite.{
  Processor, Exit, done, out_of_fuel, failed, Progress, stopped, with_exit, then_go, when, write,
  has_alias, close_name, close_exit, close_table_ref, table_ref_loop, table_ref, no_error,
  ignore_error,
}
use qri.Sql.Aliases.{new_table_name_found}

-- The call did not run out of fuel, and left no more tokens than there are in the list.
pub record Ends (ts : List Token) (r : Progress) : Type 0 where
  pub ends : r.exit ≢ out_of_fuel
  pub shorter : length r.rest ≤ length ts

pub weaken : (us ts : List Token) (r : Progress) → length us ≤ length ts → Ends us r → Ends ts r
weaken us ts r h w = record { ends = w.ends; shorter = omega (arith, w.shorter) }

-- A call that returns at once.
pub returns :
    {p : Processor} {us ts : List Token} (e : Exit)
    → e ≢ out_of_fuel
    → length us ≤ length ts
    → Ends ts (stopped e p us)
returns e w h = record { ends = w; shorter = h }

if-Ends :
    (ts : List Token) (b : Bool) (r s : Progress)
    → Ends ts r
    → Ends ts s
    → Ends ts (if b then r else s)
if-Ends ts true r s w v = w
if-Ends ts false r s w v = v

pub when-Ends :
    (ts : List Token) (b : Bool) (r : Progress) (next : Processor → Progress) (p : Processor)
    → Ends ts r
    → ((q : Processor) → Ends ts (next q))
    → Ends ts (when b r next p)
when-Ends ts true r next p w v = w
when-Ends ts false r next p w v = v p

with_exit-Ends :
    (ts us : List Token) (e : Exit) (r : Progress) (next : Processor → List Token → Progress)
    → Ends us r
    → e ≢ out_of_fuel
    → length us ≤ length ts
    → ((p : Processor) (rest : List Token) → length rest ≤ length us → Ends ts (next p rest))
    → Ends ts (with_exit e r next)
with_exit-Ends ts us done r next w d h v = v r.state r.rest w.shorter
with_exit-Ends ts us out_of_fuel r next w d h v = absurd (d refl)
with_exit-Ends ts us (failed e) r next w d h v = weaken us ts r h w

pub then_go-Ends :
    (ts us : List Token) (r : Progress) (next : Processor → List Token → Progress)
    → Ends us r
    → length us ≤ length ts
    → ((p : Processor) (rest : List Token) → length rest ≤ length us → Ends ts (next p rest))
    → Ends ts (then_go r next)
then_go-Ends ts us r next w h v = with_exit-Ends ts us r.exit r next w w.ends h v

no_error_ends : (e : Exit) → e ≢ out_of_fuel → no_error e ≢ out_of_fuel
no_error_ends done w k = cc
no_error_ends out_of_fuel w k = w refl
no_error_ends (failed e) w k = cc

pub ignore_error-Ends : (ts : List Token) (r : Progress) → Ends ts r → Ends ts (ignore_error r)
ignore_error-Ends ts r w = record { ends = no_error_ends r.exit w.ends; shorter = w.shorter }

close_name_exit : (alias : Str) (p : Processor) → close_exit (close_name alias p) ≡ done
unfolding close_name
close_name_exit alias p =
    let (name, n, e) =
      new_table_name_found (suc (length p.aliases)) p.auto_aliased p.aliases (omega arith) in
    ap close_exit e

close_table_ref-Ends :
    (alias : Str) (p : Processor) (ts : List Token) → Ends ts (close_table_ref alias p ts)
unfolding close_table_ref
close_table_ref-Ends alias p ts =
    if-Ends ts (is_empty alias) _ _ (returns _ (λ k. cc (k, close_name_exit alias p)) (omega arith))
      (returns _ (λ k. cc) (omega arith))

abbrev pub tok : TokenType → Str → Token
tok k s = record { kind = k; text = s }

table_ref_token :
    (alias : Str) (p : Processor) (k : TokenType) (s : Str) (ts : List Token)
    → ((a : Str) (q : Processor) → Ends ts (table_ref_loop a q ts))
    → Ends (tok k s ∷ ts) (table_ref_loop alias p (tok k s ∷ ts))
unfolding table_ref_loop
table_ref_token alias p whitespace_tok s ts ih = weaken ts _ _ (omega arith) (ih alias (write s p))
table_ref_token alias p as_tok s ts ih = weaken ts _ _ (omega arith) (ih alias (write s p))
table_ref_token alias p text_tok s ts ih =
    when-Ends _ (has_alias s p.aliases) _ _ p (returns _ (λ k. cc) (omega arith))
      (λ q. weaken ts _ _ (omega arith) (ih s (write s (record q { aliases = s ∷ q.aliases }))))
table_ref_token alias p comma_tok s ts ih =
    then_go-Ends _ ts (close_table_ref alias p ts) _ (close_table_ref-Ends alias p ts) (omega arith)
      (λ q rest h. (returns _ (λ k. cc) (omega arith)))
table_ref_token alias p other s ts ih = close_table_ref-Ends alias p (tok other s ∷ ts)

table_ref_loop-Ends :
    (alias : Str) (p : Processor) (ts : List Token) → Ends ts (table_ref_loop alias p ts)
unfolding table_ref_loop
table_ref_loop-Ends alias p [] = close_table_ref-Ends alias p []
table_ref_loop-Ends alias p (t ∷ ts) =
    table_ref_token alias p t.kind t.text ts (λ a q. table_ref_loop-Ends a q ts)

pub table_ref-Ends : (text : Str) (p : Processor) (ts : List Token) → Ends ts (table_ref text p ts)
unfolding table_ref
table_ref-Ends text p ts =
    if-Ends ts (is_empty text) _ _ (table_ref_loop-Ends [] p ts) (table_ref_loop-Ends [] _ ts)
