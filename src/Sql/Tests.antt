-- ===== src/Sql/Tests.antt =====
-- Runs of the scanner and of both passes on small queries.
use qri.Base.{◌≡◌, refl, ◌≢◌, [], ◌∷◌, Bool, false, Str, str}
use qri.Base.Decimal.{digits, itoa}
use qri.Dsref.Name.{is_upper}
use qri.Dsref.Generate.{trim_space, trim_left, is_space, lower_rune}
use qri.Sql.Tokens.{tokens, texts, tokens_from, textual, keyword_type, lower_letter}
use qri.Sql.Rewrite.{
  references, table_ref, table_ref_loop, close_table_ref, close_name, auto_name, close_ref,
  new_processor, new_table_name, replace_at, set_mapping, done, out_of_fuel, failed,
  ambiguous_column, to_legal_name,
}
use qri.Sql.Select.{
  process_exit, bare_column, column_reference, dots, selects, trim_left_quotes, trim_quotes, query,
}
use qri.Sql.Ends.{query_ends}

abbrev no_numbers : Str → Bool
no_numbers s = false

rewrites_reference :
    query no_numbers (str "select a from me/b-c@x")
    ≡ (str "select ds.a from me_b_c_at_x ds", (str "me_b_c_at_x", str "me/b-c@x") ∷ [], done)
unfolding query process_exit references tokens tokens_from textual keyword_type trim_space trim_left
    is_space lower_letter lower_rune is_upper table_ref table_ref_loop close_table_ref close_name
    digits itoa auto_name bare_column close_ref column_reference dots new_processor new_table_name
    replace_at selects set_mapping to_legal_name trim_left_quotes trim_quotes
rewrites_reference = refl

numbers_second_table :
    (query no_numbers (str "select ds.a from me/b join me/c")).0
    ≡ str "select ds.a from me_b  dsjoin me_c ds2"
unfolding query process_exit references tokens tokens_from textual keyword_type trim_space trim_left
    is_space lower_letter lower_rune is_upper table_ref table_ref_loop close_table_ref close_name
    digits itoa auto_name bare_column close_ref column_reference dots new_processor new_table_name
    replace_at selects set_mapping to_legal_name trim_left_quotes trim_quotes
numbers_second_table = refl

refuses_bare_column :
    (query no_numbers (str "select a from b x, c y")).2 ≡ failed (ambiguous_column (str "a"))
unfolding query process_exit references tokens tokens_from textual keyword_type trim_space trim_left
    is_space lower_letter lower_rune is_upper table_ref table_ref_loop close_table_ref close_name
    digits itoa auto_name bare_column close_ref column_reference dots new_processor new_table_name
    replace_at selects set_mapping to_legal_name trim_left_quotes trim_quotes
refuses_bare_column = refl

-- A text that ends at a star is lost.
loses_text_before_star : texts (tokens (str "a*b")) ≡ str "*b"
unfolding texts tokens tokens_from textual keyword_type trim_space trim_left is_space lower_letter
    lower_rune is_upper
loses_text_before_star = refl

query_ends_example :
    (query no_numbers (str "select a from me/b join (select b from c) d")).2 ≢ out_of_fuel
query_ends_example = query_ends no_numbers (str "select a from me/b join (select b from c) d")
