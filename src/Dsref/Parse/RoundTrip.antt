-- ===== src/Dsref/Parse/RoundTrip.antt =====
-- What `Ref.String` prints, `Parse` and `ParseHumanFriendly` read back.
use qri.Base.{
  ◌≡◌, refl, inl, inr, [], ◌∷◌, ◌++◌, Bool, true, false, not, ◌||◌, Str, ok, err, length, any,
  Bool-cases, ap, sym, ◌∙◌, none, append_assoc, append-nil,
}
use qri.Dsref.Ref.{Ref, empty_ref, human, ref_string, present}
use qri.Dsref.Name.{is_upper, is_lower, is_digit, is_letter, is_word}
use qri.Dsref.Scan.{Stops, expect}
use qri.Dsref.Parse.{
  find_concrete, parse_concrete, parse_human, check_case, finish, after_concrete, after_human,
  parse_ref, parse, parse_human_friendly, after_friendly, friendly_end, not_human_friendly,
}
use qri.Dsref.Parse.Print.{
  IsName, IsName-present, IsConcrete, concrete_text, path_text, written_ref, parse_human-print,
  parse_concrete-print,
}

parse_ref_lem :
    (user text : Str) (peer_ref : Bool)
    → IsName user
    → parse_ref (user ++ text) peer_ref
      ≡ after_human (user ++ text) peer_ref (parse_human (user ++ text))
unfolding parse_ref
parse_ref_lem [] text peer_ref w = absurd w
parse_ref_lem (c ∷ cs) text peer_ref w = refl

friendly_lem :
    (user text : Str)
    → IsName user
    → parse_human_friendly (user ++ text)
      ≡ after_friendly (user ++ text) (parse_human (user ++ text))
unfolding parse_human_friendly
friendly_lem [] text w = absurd w
friendly_lem (c ∷ cs) text w = refl

human-print : (r : Ref) → present r.name ≡ true → human r ≡ r.username ++ b'/' ∷ r.name
unfolding human
human-print r e = rw e refl

at-IsStop : (rest : Str) → Stops is_word (b'@' ∷ rest)
unfolding is_word is_letter is_digit is_lower is_upper
at-IsStop rest = refl

module _ (user name : Str) (wu : IsName user) (wn : IsName name)
    (lower : any is_upper name ≡ false) where
  named-present : present name ≡ true
  named-present = ap not (IsName-present name wn)

  alias_text : ref_string (written_ref user name [] []) ≡ user ++ (b'/' ∷ (name ++ []))
  unfolding ref_string
  alias_text =
      append-nil (human (written_ref user name [] []))
      ∙ human-print (written_ref user name [] []) named-present
      ∙ ap (λ t. user ++ (b'/' ∷ t)) (sym (append-nil name))

  check_case-lower :
      (id path : Str)
      → check_case (written_ref user name id path) ≡ ok (written_ref user name id path)
  check_case-lower id path = rw lower refl

  parse-alias : parse (ref_string (written_ref user name [] [])) ≡ ok (written_ref user name [] [])
  unfolding after_human after_concrete finish parse_concrete find_concrete expect
  parse-alias =
      ap parse alias_text
      ∙ parse_ref_lem user (b'/' ∷ (name ++ [])) false wu
      ∙ ap (after_human (user ++ (b'/' ∷ (name ++ []))) false)
          (parse_human-print user name [] wu wn tt)
      ∙ check_case-lower [] []

  friendly-alias :
      parse_human_friendly (ref_string (written_ref user name [] []))
      ≡ ok (written_ref user name [] [])
  unfolding after_friendly friendly_end
  friendly-alias =
      ap parse_human_friendly alias_text
      ∙ friendly_lem user (b'/' ∷ (name ++ [])) wu
      ∙ ap (after_friendly (user ++ (b'/' ∷ (name ++ []))))
          (parse_human-print user name [] wu wn tt)
      ∙ check_case-lower [] []

  module _ (id network commit : Str) (w : IsConcrete id network commit) where
    full_text :
        ref_string (written_ref user name id (path_text network commit))
        ≡ user ++ (b'/' ∷ (name ++ (b'@' ∷ concrete_text id network commit)))
    unfolding ref_string
    full_text =
        let at : (present id || true) ≡ true = elim (Bool-cases (present id)) [
          | inl t ↦ rw t refl
          | inr f ↦ rw f refl
        ] in
        rw at (
          ap (λ h. h ++ (b'@' ∷ concrete_text id network commit))
            (human-print (written_ref user name id (path_text network commit)) named-present)
          ∙ append_assoc user (b'/' ∷ name) (b'@' ∷ concrete_text id network commit))

    abbrev full_ref : Ref
    full_ref = written_ref user name id (path_text network commit)

    abbrev behind : Str
    behind = b'/' ∷ (name ++ (b'@' ∷ concrete_text id network commit))

    human-full : parse_human (user ++ behind) ≡ record {
      remain = b'@' ∷ concrete_text id network commit;
      partial = record empty_ref { username = user; name = name };
      error = none;
    }
    human-full = parse_human-print user name _ wu wn (at-IsStop (concrete_text id network commit))

    parse-full : parse (ref_string full_ref) ≡ ok full_ref
    unfolding after_human after_concrete finish
    parse-full =
        ap parse full_text
        ∙ parse_ref_lem user behind false wu
        ∙ ap (after_human (user ++ behind) false) human-full
        ∙ ap
            (after_concrete (length (user ++ behind)) (b'@' ∷ concrete_text id network commit)
              (written_ref user name [] []))
            (parse_concrete-print id network commit w)
        ∙ check_case-lower id (path_text network commit)

    friendly-full :
        parse_human_friendly (ref_string full_ref)
        ≡ err (written_ref user name [] [], not_human_friendly)
    unfolding after_friendly friendly_end
    friendly-full =
        ap parse_human_friendly full_text
        ∙ friendly_lem user behind wu
        ∙ ap (after_friendly (user ++ behind)) human-full

    -- A reference of valid user and dataset names, the latter with no upper-case letter, is read
    -- back by `Parse` from the text that `String` prints, both without a concrete part and with an
    -- id, a known network and a commit hash of the right characters and length. `ParseHumanFriendly`
    -- reads back the first, and on the second says that it is not human-friendly.
    pub parse-ref_string :
        (parse (ref_string (written_ref user name [] [])) ≡ ok (written_ref user name [] []))
        × (parse (ref_string (written_ref user name id (path_text network commit)))
            ≡ ok (written_ref user name id (path_text network commit)))
        × (parse_human_friendly (ref_string (written_ref user name [] []))
            ≡ ok (written_ref user name [] []))
        × (parse_human_friendly (ref_string (written_ref user name id (path_text network commit)))
            ≡ err (written_ref user name [] [], not_human_friendly))
    parse-ref_string = (parse-alias, parse-full, friendly-alias, friendly-full)
