-- ===== src/Dsref/Tests.antt =====
-- The theorems on references at concrete references.
use mathlib.Core.Path.{◌≡◌, refl}
use mathlib.Core.Logic.{◌≢◌, ◌↔◌, inr}
use qri.Base.{[], ◌∷◌, Str, true, false, str, any, ok, err, panic, length, ◌≤◌, arith, ltb, All}
use qri.Dsref.Generate.{
  convert_words, trim_space, generate_name, is_punc, steps, step, step_in, step_outside, step_word,
  flush, flush_word, separated, is_joined, is_alphanum, lower_rune, trim_left, is_space,
}
use qri.Dsref.Generate.Valid.{generate_name-IsValid, generate_name-panics}
use qri.Dsref.Ref.{Ref, empty_ref, ref_string}
use qri.Dsref.Name.{is_upper, is_lower, is_digit, is_letter, is_word, ensure_valid_name}
use qri.Dsref.Parse.{
  parse, parse_ref, parse_human_friendly, is_base32, is_base58, not_human_friendly,
}
use qri.Dsref.Parse.Print.{IsName, IsConcrete, written_ref, path_text}
use qri.Dsref.Parse.RoundTrip.{parse-ref_string}
use qri.Dsref.Parse.Names.{ReadWhole, ensure_valid_name_iff}
use qri.Dsref.Parse.Total.{parse-total}

abbrev cities : Ref
cities = record empty_ref { username = str "lena"; name = str "cities" }

lena-IsName : IsName (str "lena")
unfolding is_letter is_lower is_upper is_word is_digit
lena-IsName = (refl, refl)

cities-IsName : IsName (str "cities")
unfolding is_letter is_lower is_upper is_word is_digit
cities-IsName = (refl, refl)

cities-lower : any is_upper (str "cities") ≡ false
unfolding is_upper
cities-lower = refl

abc-IsConcrete : IsConcrete (str "abc2") (str "ipfs") (str "Abc1")
unfolding is_base32 is_base58 is_lower
abc-IsConcrete = record {
  id_class = refl;
  id_length = omega arith;
  network_known = inr refl;
  commit_class = refl;
  commit_length = omega arith;
}

parse-ref_string_example :
    (parse (ref_string (written_ref (str "lena") (str "cities") [] []))
      ≡ ok (written_ref (str "lena") (str "cities") [] []))
    × (parse (
          ref_string (
            written_ref
              (str "lena")
              (str "cities")
              (str "abc2")
              (path_text (str "ipfs") (str "Abc1"))))
        ≡ ok (
            written_ref
              (str "lena")
              (str "cities")
              (str "abc2")
              (path_text (str "ipfs") (str "Abc1"))))
    × (parse_human_friendly (ref_string (written_ref (str "lena") (str "cities") [] []))
        ≡ ok (written_ref (str "lena") (str "cities") [] []))
    × (parse_human_friendly (
          ref_string (
            written_ref
              (str "lena")
              (str "cities")
              (str "abc2")
              (path_text (str "ipfs") (str "Abc1"))))
        ≡ err (written_ref (str "lena") (str "cities") [] [], not_human_friendly))
parse-ref_string_example =
    parse-ref_string (str "lena") (str "cities") lena-IsName cities-IsName cities-lower (str "abc2")
      (str "ipfs") (str "Abc1") abc-IsConcrete

ensure_valid_name_iff_example : (ensure_valid_name (str "cities") ≡ ok tt) ↔ (
    ReadWhole (str "cities")
    × (length (str "cities") ≤ 144)
    × (any is_upper (str "cities") ≡ false))
ensure_valid_name_iff_example = ensure_valid_name_iff (str "cities")

parse-total_example :
    (parse_ref (str "lena!cities") false ≢ panic)
    × (parse_human_friendly (str "lena!cities") ≢ panic)
parse-total_example = parse-total (str "lena!cities") false

abbrev same : Str → Str
same text = text

report-no_punctuation : All (λ r. is_punc r ≡ false) (trim_space (str "TPS 20"))
unfolding trim_space trim_left is_space is_punc
report-no_punctuation = (refl, (refl, (refl, (refl, (refl, (refl, tt))))))

report-words : convert_words (trim_space (str "TPS 20")) ≡ str "tps_20"
unfolding trim_space trim_left is_space convert_words steps step step_in step_outside step_word
    flush flush_word separated is_joined is_alphanum lower_rune is_punc is_letter is_lower is_upper
    is_digit
report-words = refl

t-IsLower : is_lower b't' ≡ true
unfolding is_lower
t-IsLower = refl

generate_name-IsValid_example :
    (generate_name same (str "TPS 20") (str "ds_") ≡ ok (str "tps_20"))
    × (ensure_valid_name (str "tps_20") ≡ ok tt)
generate_name-IsValid_example =
    generate_name-IsValid same (str "TPS 20") (str "ds_") report-no_punctuation report-words
      t-IsLower

-- The two characters of "world" in Chinese.
abbrev world : Str
world = 19990 ∷ 30028 ∷ []

world-skipped : All (λ r. ltb 127 r ≡ true) (trim_space world)
unfolding trim_space trim_left is_space
world-skipped = (refl, (refl, tt))

generate_name-panics_example : generate_name same world (str "ds_") ≡ panic
generate_name-panics_example = generate_name-panics same world (str "ds_") world-skipped
