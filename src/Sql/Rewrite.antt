-- ===== src/Sql/Rewrite.antt =====
-- The first pass of `Process`: dataset references become legal table names with an alias each. A call
-- takes the tokens that are still to be scanned and returns those it left; `unscan` puts one back in
-- front. The end of the list is the end of the input.
use qri.Base.{
  ℕ, zero, List, [], ◌∷◌, ◌++◌, Bool, true, false, ◌||◌, Str, str, str_eq, map, length, is_empty,
  any, ◌==◌, if◌then◌else◌, suc, Option, none, some,
}
use qri.Base.Int.{ℤ, pos, ◌+ℤ◌, ◌-ℤ◌, eq_ℤ}
use qri.Base.Decimal.{itoa}
use qri.Sql.Tokens.{
  Token, eof_tok, text_tok, comma_tok, left_paren_tok, right_paren_tok, whitespace_tok, as_tok,
  from_tok, group_tok, having_tok, join_tok, limit_tok, order_tok, union_tok, where_tok,
}

pub record Processor : Type 0 where
  pub processed : Str
  pub mapping : List (Str × Str)
  pub auto_aliased : ℕ
  pub aliases : List Str
  pub nesting : ℤ

pub data ProcessError : Type 0 where
  comma_before_name : ProcessError
  duplicate_alias ambiguous_column illegal_column : Str → ProcessError

-- How a call of the processor ends.
pub data Exit : Type 0 where
  done out_of_fuel : Exit
  failed : ProcessError → Exit

-- What the caller goes on with: an error leaves what was written.
pub record Progress : Type 0 where
  pub state : Processor
  pub rest : List Token
  pub exit : Exit

abbrev pub stopped : Exit → Processor → List Token → Progress
stopped e p ts = record { state = p; rest = ts; exit = e }

-- `if err := call(); err != nil { return err }`, and then `next`.
abbrev pub with_exit : Exit → Progress → (Processor → List Token → Progress) → Progress
with_exit done r next = next r.state r.rest
with_exit out_of_fuel r next = r
with_exit (failed e) r next = r

abbrev pub then_go : Progress → (Processor → List Token → Progress) → Progress
then_go r next = with_exit r.exit r next

abbrev pub when : Bool → Progress → (Processor → Progress) → Processor → Progress
when true r next p = r
when false r next p = next p

unfoldable pub new_processor : Processor
new_processor = record {
  processed = [];
  mapping = [];
  auto_aliased = 0;
  aliases = [];
  nesting = pos 0;
}

abbrev pub write : Str → Processor → Processor
write text p = record p { processed = p.processed ++ text }

-- `p.mapping[name] = text`
unfoldable pub set_mapping : Str → Str → List (Str × Str) → List (Str × Str)
set_mapping name text [] = (name, text) ∷ []
set_mapping name text ((k, v) ∷ m) =
    let later = set_mapping name text m in
    if str_eq k name then (name, text) ∷ m else (k, v) ∷ later

abbrev pub has_alias : Str → List Str → Bool
has_alias alias = any (str_eq alias)

unfoldable pub replace_at : Str → Str
replace_at [] = []
replace_at (c ∷ cs) = let later = replace_at cs in if c == b'@' then str "_at_" ++ cs else c ∷ later

unfoldable pub to_legal_name : Str → Str
to_legal_name ref = map (λ c. if c == b'/' || c == b'-' then b'_' else c) (replace_at ref)

-- The name that `newTableName` tries when `autoAliased` is `n`.
unfoldable pub auto_name : ℕ → Str
auto_name n = if n == 1 then str "ds" else str "ds" ++ itoa n

-- `newTableName`, from the count so far, with fuel: the name and the new count.
unfoldable pub new_table_name : ℕ → ℕ → List Str → Option (Str × ℕ)
new_table_name zero n aliases = none
new_table_name (suc f) n aliases =
    let later = new_table_name f (suc n) aliases in
    if has_alias (auto_name (suc n)) aliases then later else some (auto_name (suc n), suc n)

-- The end of `processTableRef`: an alias is written if none was read, and a comma.
unfoldable pub close_ref : Option (Str × ℕ) → Processor → Processor
close_ref none p = p
close_ref (some (alias, n)) p =
    write (32 ∷ alias) (record p { auto_aliased = n; aliases = alias ∷ p.aliases })

abbrev pub close_exit : Option (Str × ℕ) → Exit
close_exit none = out_of_fuel
close_exit (some named) = done

unfoldable pub close_name : Str → Processor → Option (Str × ℕ)
close_name alias p = new_table_name (suc (length p.aliases)) p.auto_aliased p.aliases

unfoldable pub close_table_ref : Str → Processor → List Token → Progress
close_table_ref alias p ts =
    if is_empty alias
    then stopped (close_exit (close_name alias p)) (close_ref (close_name alias p) p) ts
    else stopped done p ts

-- The loop of `processTableRef`.
unfoldable pub table_ref_loop : Str → Processor → List Token → Progress
table_ref_loop alias p [] = close_table_ref alias p []
table_ref_loop alias p (t ∷ ts) = elim t.kind [
  | whitespace_tok ↦ table_ref_loop alias (write t.text p) ts
  | as_tok ↦ table_ref_loop alias (write t.text p) ts
  | text_tok ↦
      when (has_alias t.text p.aliases) (stopped (failed (duplicate_alias t.text)) p ts)
        (λ p. table_ref_loop t.text (write t.text (record p { aliases = t.text ∷ p.aliases })) ts) p
  | comma_tok ↦ then_go (close_table_ref alias p ts) (λ p ts. stopped done (write t.text p) ts)
  | other ↦ close_table_ref alias p (t ∷ ts)
]

unfoldable pub table_ref : Str → Processor → List Token → Progress
table_ref text p ts =
    let name = to_legal_name text in
    if is_empty text
    then table_ref_loop [] p ts
    else table_ref_loop [] (write name (record p { mapping = set_mapping name text p.mapping })) ts

-- The call of `p.processTableRef("")`, whose error is dropped.
abbrev pub no_error : Exit → Exit
no_error (failed e) = done
no_error other = other

abbrev pub ignore_error : Progress → Progress
ignore_error r = record r { exit = no_error r.exit }

abbrev pub deeper : Processor → Processor
deeper p = record p { nesting = p.nesting +ℤ pos 1 }

abbrev pub shallower : Processor → Processor
shallower p = record p { nesting = p.nesting -ℤ pos 1 }

-- `processReferences` and `processTableRefs`, from the first token on, with fuel. The first number
-- is the local `nesting`; `hasReadName` is false throughout, since no statement sets it.
unfoldable mutual
  pub references : ℕ → ℤ → Processor → List Token → Progress
  references zero n p ts = stopped out_of_fuel p ts
  references (suc f) n p [] = stopped done p []
  references (suc f) n p (t ∷ ts) = elim t.kind [
    | from_tok ↦ then_go (table_refs f p.nesting (write t.text p) ts) (references f n)
    | join_tok ↦ then_go (table_refs f p.nesting (write t.text p) ts) (references f n)
    | left_paren_tok ↦
        let inner = deeper (write t.text p) in
        then_go (references f inner.nesting inner ts) (references f n)
    | right_paren_tok ↦
        let outer = shallower (write t.text p) in
        when (eq_ℤ outer.nesting n) (stopped done outer ts) (λ p. references f n p ts) outer
    | eof_tok ↦ stopped done p ts
    | other ↦ references f n (write t.text p) ts
  ]

  pub table_refs : ℕ → ℤ → Processor → List Token → Progress
  table_refs zero n p ts = stopped out_of_fuel p ts
  table_refs (suc f) n p [] = stopped done p []
  table_refs (suc f) n p (t ∷ ts) = elim t.kind [
    | text_tok ↦ then_go (table_ref t.text p ts) (table_refs f n)
    | comma_tok ↦ stopped (failed comma_before_name) (write t.text p) ts
    | left_paren_tok ↦
        let inner = deeper (write t.text p) in
        then_go (references f inner.nesting inner ts) (table_refs f n)
    | right_paren_tok ↦
        let outer = shallower (write t.text p) in
        when (eq_ℤ outer.nesting n) (stopped done outer ts)
          (λ p. then_go (ignore_error (table_ref [] p ts)) (table_refs f n)) outer
    | where_tok ↦ stopped done (write t.text p) ts
    | group_tok ↦ stopped done (write t.text p) ts
    | having_tok ↦ stopped done (write t.text p) ts
    | limit_tok ↦ stopped done (write t.text p) ts
    | order_tok ↦ stopped done (write t.text p) ts
    | union_tok ↦ stopped done (write t.text p) ts
    | eof_tok ↦ stopped done (write t.text p) ts
    | other ↦ table_refs f n (write t.text p) ts
  ]
