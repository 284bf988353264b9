-- ===== src/Dsref/Parse.antt =====
-- dsref/parse.go: parsing a reference. The text is its bytes; the expressions match ASCII only.
-- A result is the reference, or the reference as far as it was read with the error; an index out
-- of range is a panic. The words of an error are not modelled, its position and character are.
pub mod Print
pub mod RoundTrip
pub mod Names
pub mod Total
use qri.Base.{
  ℕ, [], ◌∷◌, ◌++◌, Bool, true, false, not, ◌&&◌, ◌||◌, Str, str, str_eq, ◌-◌, Result, ok, err,
  panic, length, is_empty, any, ◌==◌, if◌then◌else◌, Option, none, some, strip_prefix, all,
}
use qri.Dsref.Ref.{Ref, empty_ref}
use qri.Dsref.Name.{within, is_upper, is_lower, is_digit, is_letter, is_word}
use qri.Dsref.Scan.{span, span_upto, expect}

pub data ParseError : Type 0 where
  empty_reference not_parsed unexpected_next not_human_friendly bad_case : ParseError
  need_username no_dataset_name invalid_network bad_base32 bad_base58 : ParseError
  unexpected_at : (position char : ℕ) → ParseError

-- The results of `parseHumanFriendlyPortion` and `parseConcreteRef`.
pub record Portion : Type 0 where
  pub remain : Str
  pub partial : Ref
  pub error : Option ParseError

abbrev pub Found : Type 0
Found = Option (Str × Str)

infixl 5 ◌>>?◌
abbrev pub ◌>>?◌ : {A B : Type 0} → Option A → (A → Option B) → Option B
none >>? f = none
some a >>? f = f a

-- `validName.FindString`, with the text behind the match: an empty name is no match.
abbrev pub put_first : ℕ → Str × Str → Str × Str
put_first c (run, rest) = (c ∷ run, rest)

unfoldable pub find_name : Str → Str × Str
find_name [] = ([], [])
find_name (c ∷ cs) = if is_letter c then put_first c (span is_word cs) else ([], c ∷ cs)

-- `[a-z2-7]`
unfoldable pub is_base32 : ℕ → Bool
is_base32 c = is_lower c || within b'2' b'7' c

-- `[0-9a-zA-Z]`
unfoldable pub is_alnum : ℕ → Bool
is_alnum c = is_digit c || is_letter c

-- `[1-9A-HJ-NP-Za-km-z]`
unfoldable pub is_base58 : ℕ → Bool
is_base58 c =
    within b'1' b'9' c
    || within b'A' b'H' c
    || within b'J' b'N' c
    || within b'P' b'Z' c
    || within b'a' b'k' c
    || within b'm' b'z' c

abbrev pub qm : Str
qm = str "Qm"

-- `Qm[0-9a-zA-Z]{0,44}`
abbrev pub put_qm : Str × Str → Found
put_qm (run, rest) = some (qm ++ run, rest)

unfoldable pub find_qm : Str → Found
find_qm text = strip_prefix qm text >>? λ cs. put_qm (span_upto 44 is_alnum cs)

abbrev pub slash : Str × Str → Found
slash (word, rest) = expect b'/' rest >>? λ after. some (word, after)

-- `([a-z2-7]{0,52}|Qm[0-9a-zA-Z]{0,44})?/`: the second is tried if the first does not match.
unfoldable pub find_id : Str → Found
find_id text = elim (slash (span_upto 52 is_base32 text)) [
  | some found ↦ some found
  | none ↦ find_qm text >>? slash
]

-- `([a-zA-Z][\w-]*)/`
abbrev pub not_empty : Str × Str → Found
not_empty (word, rest) = if is_empty word then none else some (word, rest)

unfoldable pub find_network : Str → Found
find_network text = not_empty (find_name text) >>? slash

-- What `concreteRef` matches: the groups, and the text behind the match.
pub record Concrete : Type 0 where
  pub id : Str
  pub network : Str
  pub commit : Str
  pub behind : Str

unfoldable pub find_concrete : Str → Option Concrete
find_concrete text = expect b'@' text >>? λ t. find_id t >>? λ i. find_network i.1 >>? λ n.
    find_qm n.1 >>? λ c. some (record { id = i.0; network = n.0; commit = c.0; behind = c.1 })

-- `b58StrictCheck`
unfoldable pub is_strict : Str → Bool
is_strict s = elim (strip_prefix qm s) [ none ↦ false | some cs ↦ all is_base58 cs ]

abbrev pub portion_error : Str → Ref → ParseError → Portion
portion_error text r e = record { remain = text; partial = r; error = some e }

-- The end of `parseConcreteRef`.
unfoldable pub check_commit : Str → Concrete → Ref → Portion
check_commit text c r =
    if not (is_empty c.commit) && not (is_strict c.commit)
    then portion_error text r bad_base58
    else record {
      remain = c.behind;
      partial = record r { path = b'/' ∷ c.network ++ b'/' ∷ c.commit };
      error = none;
    }

unfoldable pub check_concrete : Str → Concrete → Portion
check_concrete text c =
    if not (str_eq c.network (str "mem")) && not (str_eq c.network (str "ipfs"))
    then portion_error text empty_ref invalid_network
    else if is_empty c.id
    then check_commit text c empty_ref
    else if is_strict c.id
    then check_commit text c (record empty_ref { profile_id = c.id })
    else if not (all is_base32 c.id)
    then portion_error text empty_ref bad_base32
    else check_commit text c (record empty_ref { init_id = c.id })

-- `parseConcreteRef`
unfoldable pub parse_concrete : Str → Portion
parse_concrete text = elim (find_concrete text) [
  | none ↦ portion_error text empty_ref not_parsed
  | some c ↦ check_concrete text c
]

abbrev pub on_name : Str → Str → Str × Str → Portion
on_name user text (name, rest) =
    if is_empty name
    then portion_error text (record empty_ref { username = user }) no_dataset_name
    else record {
      remain = rest;
      partial = record empty_ref { username = user; name = name };
      error = none;
    }

unfoldable pub after_username : Str → Str → Portion
after_username user [] = portion_error [] (record empty_ref { username = user }) need_username
after_username user (c ∷ cs) =
    if c == b'/'
    then on_name user cs (find_name cs)
    else portion_error (c ∷ cs) (record empty_ref { username = user }) unexpected_next

abbrev pub on_username : Str → Str × Str → Portion
on_username text (user, rest) =
    if is_empty user then portion_error text empty_ref not_parsed else after_username user rest

-- `parseHumanFriendlyPortion`
unfoldable pub parse_human : Str → Portion
parse_human text = on_username text (find_name text)

abbrev pub Parsed : Type 0
Parsed = Result (Ref × ParseError) Ref

-- The position and character of an error at the start of what remains of a text of the length.
abbrev pub unexpected : ℕ → Str → Ref → Parsed
unexpected orig [] r = panic
unexpected orig (c ∷ cs) r = err (r, unexpected_at (orig - length (c ∷ cs)) c)

abbrev pub check_case : Ref → Parsed
check_case r = if any is_upper r.name then err (r, bad_case) else ok r

unfoldable pub finish : ℕ → Str → Ref → Parsed
finish orig [] r = check_case r
finish orig (c ∷ cs) r = unexpected orig (c ∷ cs) r

-- `parse` from the call of `parseConcreteRef` on.
unfoldable pub after_concrete : ℕ → Str → Ref → Portion → Parsed
after_concrete orig text r p = elim p.error [
  | none ↦ finish orig p.remain (record r {
    profile_id = p.partial.profile_id;
    init_id = p.partial.init_id;
    path = p.partial.path;
  })
  | some e ↦ elim e [ not_parsed ↦ finish orig text r | other ↦ err (r, other) ]
]

abbrev pub parse_back : ℕ → Str → Ref → Parsed
parse_back orig text r = after_concrete orig text r (parse_concrete text)

abbrev pub named : Ref → Ref
named partial = record empty_ref { username = partial.username; name = partial.name }

unfoldable pub after_human : Str → Bool → Portion → Parsed
after_human text peer_ref p = elim p.error [
  | none ↦ parse_back (length text) p.remain (named p.partial)
  | some e ↦ elim e [
    | need_username ↦ if peer_ref then ok p.partial else err (empty_ref, need_username)
    | unexpected_next ↦ unexpected (length text) p.remain empty_ref
    | not_parsed ↦ parse_back (length text) text empty_ref
    | other ↦ err (empty_ref, other)
  ]
]

-- `parse`
unfoldable pub parse_ref : Str → (peer_ref : Bool) → Parsed
parse_ref [] peer_ref = err (empty_ref, empty_reference)
parse_ref (c ∷ cs) peer_ref = after_human (c ∷ cs) peer_ref (parse_human (c ∷ cs))

-- `Parse`
abbrev pub parse : Str → Parsed
parse text = parse_ref text false

abbrev pub parse_peer_ref : Str → Parsed
parse_peer_ref text = parse_ref text true

unfoldable pub friendly_end : ℕ → Str → Ref → Parsed
friendly_end orig [] r = check_case r
friendly_end orig (c ∷ cs) r =
    if c == b'@' then err (r, not_human_friendly) else unexpected orig (c ∷ cs) r

unfoldable pub after_friendly : Str → Portion → Parsed
after_friendly text p = elim p.error [
  | none ↦ friendly_end (length text) p.remain (named p.partial)
  | some e ↦ elim e [
    | not_parsed ↦ friendly_end (length text) text empty_ref
    | other ↦ err (empty_ref, other)
  ]
]

-- `ParseHumanFriendly`
unfoldable pub parse_human_friendly : Str → Parsed
parse_human_friendly [] = err (empty_ref, empty_reference)
parse_human_friendly (c ∷ cs) = after_friendly (c ∷ cs) (parse_human (c ∷ cs))

-- `MustParse`
unfoldable pub must_parse : Str → Parsed
must_parse text = elim (parse text) [ ok r ↦ ok r | err e ↦ panic | panic ↦ panic ]

unfoldable pub is_ref_string : Str → Bool
is_ref_string text = elim (parse text) [
  | ok r ↦ true
  | err e ↦ elim e.1 [ bad_case ↦ true | _ ↦ false ]
  | panic ↦ false
]
