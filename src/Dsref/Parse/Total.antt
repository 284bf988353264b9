-- ===== src/Dsref/Parse/Total.antt =====
-- Parsing never indexes a text out of range.
use qri.Base.{
  ℕ, ◌≡◌, refl, ◌≢◌, inl, inr, [], ◌∷◌, Bool, Str, panic, length, is_empty, any, ◌==◌, Bool-cases,
  Option, none, some,
}
use qri.Dsref.Ref.{Ref, empty_ref}
use qri.Dsref.Name.{is_upper}
use qri.Dsref.Parse.{
  Portion, ParseError, Parsed, unexpected_next, not_parsed, need_username, find_name, on_name,
  on_username, after_username, parse_concrete, parse_human, unexpected, check_case, finish,
  after_concrete, after_human, parse_ref, parse_back, parse_human_friendly, after_friendly,
  friendly_end,
}

abbrev Settled : Parsed → Type 0
Settled p = p ≢ panic

check_case-Settled : (r : Ref) → Settled (check_case r)
check_case-Settled r = elim (Bool-cases (any is_upper r.name)) [
  | inl t ↦ rw t (λ e. cc)
  | inr f ↦ rw f (λ e. cc)
]

finish-Settled : (orig : ℕ) (text : Str) (r : Ref) → Settled (finish orig text r)
unfolding finish
finish-Settled orig [] r = check_case-Settled r
finish-Settled orig (c ∷ cs) r = λ e. cc

friendly_end-Settled : (orig : ℕ) (text : Str) (r : Ref) → Settled (friendly_end orig text r)
unfolding friendly_end
friendly_end-Settled orig [] r = check_case-Settled r
friendly_end-Settled orig (c ∷ cs) r = elim (Bool-cases (c == b'@')) [
  | inl t ↦ rw t (λ e. cc)
  | inr f ↦ rw f (λ e. cc)
]

-- A portion that stops at an unexpected character has that character.
abbrev HasNext : Portion → Type 0
HasNext p = p.error ≡ some unexpected_next → p.remain ≢ []

on_name-HasNext : (user text : Str) (found : Str × Str) → HasNext (on_name user text found)
on_name-HasNext user text (name, rest) = elim (Bool-cases (is_empty name)) [
  | inl t ↦ rw t (λ e. absurd (cc))
  | inr f ↦ rw f (λ e. absurd (cc))
]

after_username-HasNext : (user rest : Str) → HasNext (after_username user rest)
unfolding after_username
after_username-HasNext user [] = λ e. absurd (cc)
after_username-HasNext user (c ∷ cs) = elim (Bool-cases (c == b'/')) [
  | inl t ↦ rw t (on_name-HasNext user cs (find_name cs))
  | inr f ↦ rw f (λ e n. cc)
]

on_username-HasNext : (text : Str) (found : Str × Str) → HasNext (on_username text found)
on_username-HasNext text (user, rest) = elim (Bool-cases (is_empty user)) [
  | inl t ↦ rw t (λ e. absurd (cc))
  | inr f ↦ rw f (after_username-HasNext user rest)
]

parse_human-HasNext : (text : Str) → HasNext (parse_human text)
unfolding parse_human
parse_human-HasNext text = on_username-HasNext text (find_name text)

unexpected-Settled :
    (orig : ℕ) (text : Str) (r : Ref) → text ≢ [] → Settled (unexpected orig text r)
unexpected-Settled orig [] r n = absurd (n refl)
unexpected-Settled orig (c ∷ cs) r n = λ e. cc

abbrev portion : Str → Ref → Option ParseError → Portion
portion remain partial error = record { remain = remain; partial = partial; error = error }

after_concrete_fields :
    (orig : ℕ) (text : Str) (r : Ref) (remain : Str) (partial : Ref) (error : Option ParseError)
    → Settled (after_concrete orig text r (portion remain partial error))
unfolding after_concrete
after_concrete_fields orig text r remain partial none = finish-Settled orig remain _
after_concrete_fields orig text r remain partial (some e) =
    elim e as (λ e. Settled (after_concrete orig text r (portion remain partial (some e)))) [
      | not_parsed ↦ finish-Settled orig text r
      | other ↦ λ h. cc
    ]

after_concrete-Settled :
    (orig : ℕ) (text : Str) (r : Ref) (p : Portion) → Settled (after_concrete orig text r p)
after_concrete-Settled orig text r p = after_concrete_fields orig text r p.remain p.partial p.error

parse_back-Settled : (orig : ℕ) (text : Str) (r : Ref) → Settled (parse_back orig text r)
parse_back-Settled orig text r = after_concrete-Settled orig text r (parse_concrete text)

after_human_fields :
    (text : Str) (peer_ref : Bool) (remain : Str) (partial : Ref) (error : Option ParseError)
    → HasNext (portion remain partial error)
    → Settled (after_human text peer_ref (portion remain partial error))
unfolding after_human
after_human_fields text peer_ref remain partial none n = parse_back-Settled (length text) remain _
after_human_fields text peer_ref remain partial (some e) n =
    elim e
        as (λ e.
          HasNext (portion remain partial (some e))
          → Settled (after_human text peer_ref (portion remain partial (some e)))) [
            | need_username ↦
                λ n. elim (Bool-cases peer_ref) [ inl t ↦ rw t (λ h. cc) | inr f ↦ rw f (λ h. cc) ]
            | unexpected_next ↦ λ n. unexpected-Settled (length text) remain empty_ref (n refl)
            | not_parsed ↦ λ n. parse_back-Settled (length text) text empty_ref
            | other ↦ λ n h. cc
          ]
      n

after_friendly_fields :
    (text : Str) (remain : Str) (partial : Ref) (error : Option ParseError)
    → Settled (after_friendly text (portion remain partial error))
unfolding after_friendly
after_friendly_fields text remain partial none = friendly_end-Settled (length text) remain _
after_friendly_fields text remain partial (some e) =
    elim e as (λ e. Settled (after_friendly text (portion remain partial (some e)))) [
      | not_parsed ↦ friendly_end-Settled (length text) text empty_ref
      | other ↦ λ h. cc
    ]

-- On every text, `Parse`, `ParsePeerRef` and `ParseHumanFriendly` return a reference or an error:
-- no index into the text is out of range.
pub parse-total :
    (text : Str) (peer_ref : Bool)
    → (parse_ref text peer_ref ≢ panic) × (parse_human_friendly text ≢ panic)
unfolding parse_ref parse_human_friendly
parse-total [] peer_ref = (λ h. cc, λ h. cc)
parse-total (c ∷ cs) peer_ref =
    let p = parse_human (c ∷ cs) in
    (
      after_human_fields (c ∷ cs) peer_ref p.remain p.partial p.error
          (parse_human-HasNext (c ∷ cs)),
      after_friendly_fields (c ∷ cs) p.remain p.partial p.error,
    )
