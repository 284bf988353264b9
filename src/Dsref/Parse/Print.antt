-- ===== src/Dsref/Parse/Print.antt =====
-- Parsing what `Ref.String` prints.
use qri.Base.{
  ℕ, ◌≡◌, refl, ◌⊎◌, inl, inr, [], ◌∷◌, ◌++◌, true, false, Str, str, str_eq_iff, length, is_empty,
  arith, ◌≤◌, ap, sym, ◌∙◌, none, some, append-nil, all,
}
use qri.Dsref.Ref.{Ref, empty_ref}
use qri.Dsref.Name.{is_upper, is_lower, is_digit, is_letter, is_word}
use qri.Dsref.Scan.{span, expect, Stops, span-append, span_upto-append}
use qri.Dsref.Parse.{
  Concrete, ◌>>?◌, find_name, is_base32, is_alnum, is_base58, qm, find_qm, slash, find_id,
  find_network, find_concrete, is_strict, portion_error, check_commit, check_concrete,
  parse_concrete, on_name, on_username, put_first, put_qm, after_username, parse_human, not_parsed,
}

-- What `validName` matches whole.
abbrev pub IsName : Str → Type 0
IsName [] = ⊥
IsName (c ∷ cs) = (is_letter c ≡ true) × (all is_word cs ≡ true)

pub find_name-append :
    (name rest : Str) → IsName name → Stops is_word rest → find_name (name ++ rest) ≡ (name, rest)
unfolding find_name
find_name-append [] rest w s = absurd w
find_name-append (c ∷ cs) rest w s = rw w.0 (ap (put_first c) (span-append is_word cs rest w.1 s))

pub IsName-present : (name : Str) → IsName name → is_empty name ≡ false
IsName-present [] w = absurd w
IsName-present (c ∷ cs) w = refl

slash-IsStop : (rest : Str) → Stops is_word (b'/' ∷ rest)
unfolding is_word is_letter is_digit is_lower is_upper
slash-IsStop rest = refl

module _ (user name rest : Str) where
  pub parse_human-print :
      IsName user
      → IsName name
      → Stops is_word rest
      → parse_human (user ++ (b'/' ∷ (name ++ rest))) ≡ record {
        remain = rest;
        partial = record empty_ref { username = user; name = name };
        error = none;
      }
  unfolding parse_human after_username
  parse_human-print wu wn s =
      ap (on_username (user ++ (b'/' ∷ (name ++ rest))))
        (find_name-append user (b'/' ∷ (name ++ rest)) wu (slash-IsStop (name ++ rest)))
      ∙ rw (IsName-present user wu) (
          ap (on_name user (name ++ rest)) (find_name-append name rest wn s)
          ∙ rw (IsName-present name wn) refl)

-- The classes of the regular expression that a base 58 character is in.
base58-alnum : (c : ℕ) → is_base58 c ≡ true → is_alnum c ≡ true
unfolding is_base58 is_alnum is_digit is_letter is_lower is_upper
base58-alnum c e = ground arith

all-base58 : (cs : Str) → all is_base58 cs ≡ true → all is_alnum cs ≡ true
all-base58 [] e = refl
all-base58 (c ∷ cs) e = ground (arith, base58-alnum c, all-base58 cs)

find_qm-append :
    (cs rest : Str)
    → length cs ≤ 44
    → all is_alnum cs ≡ true
    → Stops is_alnum rest
    → find_qm (qm ++ (cs ++ rest)) ≡ some (qm ++ cs, rest)
unfolding find_qm
find_qm-append cs rest b w s = ap put_qm (span_upto-append 44 is_alnum cs rest b w s)

-- The id, network and commit of a concrete reference.
pub record IsConcrete (id network commit : Str) : Type 0 where
  pub id_class : all is_base32 id ≡ true
  pub id_length : length id ≤ 52
  pub network_known : (network ≡ str "mem") ⊎ (network ≡ str "ipfs")
  pub commit_class : all is_base58 commit ≡ true
  pub commit_length : length commit ≤ 44

slash-IsStop-base32 : is_base32 b'/' ≡ false
unfolding is_base32 is_lower
slash-IsStop-base32 = refl

find_id-print :
    (id rest : Str)
    → all is_base32 id ≡ true
    → length id ≤ 52
    → find_id (id ++ (b'/' ∷ rest)) ≡ some (id, rest)
unfolding find_id expect
find_id-print id rest w b =
    ap
      (λ r. elim (slash r) [
        | some found ↦ some found
        | none ↦ find_qm (id ++ (b'/' ∷ rest)) >>? slash
      ])
      (span_upto-append 52 is_base32 id (b'/' ∷ rest) b w slash-IsStop-base32)

find_network-print :
    (network rest : Str)
    → (network ≡ str "mem") ⊎ (network ≡ str "ipfs")
    → find_network (network ++ (b'/' ∷ rest)) ≡ some (network, rest)
unfolding find_network find_name expect span is_word is_letter is_lower is_upper is_digit
find_network-print network rest (inl e) = rw e refl
find_network-print network rest (inr e) = rw e refl

-- The text of a concrete reference.
abbrev pub concrete_text : Str → Str → Str → Str
concrete_text id network commit = id ++ (b'/' ∷ (network ++ (b'/' ∷ (qm ++ commit))))

module _ (id network commit : Str) (w : IsConcrete id network commit) where
  find_qm-end : find_qm (qm ++ commit) ≡ some (qm ++ commit, [])
  find_qm-end =
      ap (λ t. find_qm (qm ++ t)) (sym (append-nil commit))
      ∙ find_qm-append commit [] w.commit_length (all-base58 commit w.commit_class) tt

  find_concrete-print :
      find_concrete (b'@' ∷ concrete_text id network commit)
      ≡ some (record { id = id; network = network; commit = qm ++ commit; behind = [] })
  unfolding find_concrete expect
  find_concrete-print =
      ap
        (λ i. i >>? λ i. find_network i.1 >>? λ n. find_qm n.1 >>? λ c.
          some (record { id = i.0; network = n.0; commit = c.0; behind = c.1 }))
        (find_id-print id (network ++ (b'/' ∷ (qm ++ commit))) w.id_class w.id_length)
      ∙ ap
          (λ n. n >>? λ n. find_qm n.1 >>? λ c.
            some (record { id = id; network = n.0; commit = c.0; behind = c.1 }))
          (find_network-print network (qm ++ commit) w.network_known)
      ∙ ap
          (λ c. c >>? λ c. some (record { id = id; network = network; commit = c.0; behind = c.1 }))
          find_qm-end

base32-not_strict : (id : Str) → all is_base32 id ≡ true → is_strict id ≡ false
unfolding is_base32 is_lower is_strict
base32-not_strict [] w = refl
base32-not_strict (c ∷ cs) w = ground arith

strict-qm : (commit : Str) → all is_base58 commit ≡ true → is_strict (qm ++ commit) ≡ true
unfolding is_strict
strict-qm commit w = w

-- The path of a concrete reference.
abbrev pub path_text : Str → Str → Str
path_text network commit = b'/' ∷ (network ++ (b'/' ∷ (qm ++ commit)))

check_commit-print :
    (text : Str) (c : Concrete) (r : Ref)
    → is_strict c.commit ≡ true
    → check_commit text c r ≡ record {
      remain = c.behind;
      partial = record r { path = b'/' ∷ (c.network ++ (b'/' ∷ c.commit)) };
      error = none;
    }
unfolding check_commit
check_commit-print text c r e = ground (arith, e)

check_concrete-print :
    (text : Str) (c : Concrete)
    → (c.network ≡ str "mem") ⊎ (c.network ≡ str "ipfs")
    → all is_base32 c.id ≡ true
    → check_concrete text c ≡ check_commit text c (record empty_ref { init_id = c.id })
unfolding check_concrete
check_concrete-print text c w b = ground (
  arith,
  w,
  b,
  base32-not_strict c.id b,
  str_eq_iff c.network (str "mem"),
  str_eq_iff c.network (str "ipfs"),
)

-- A reference with no profile id.
abbrev pub written_ref : (user name id path : Str) → Ref
written_ref user name id path = record {
  init_id = id;
  username = user;
  profile_id = [];
  name = name;
  path = path;
}

module _ (id network commit : Str) (w : IsConcrete id network commit) where
  pub parse_concrete-print : parse_concrete (b'@' ∷ concrete_text id network commit) ≡ record {
    remain = [];
    partial = written_ref [] [] id (path_text network commit);
    error = none;
  }
  unfolding parse_concrete
  parse_concrete-print =
      ap
        (λ f. elim f [
          | none ↦ portion_error (b'@' ∷ concrete_text id network commit) empty_ref not_parsed
          | some c ↦ check_concrete (b'@' ∷ concrete_text id network commit) c
        ])
        (find_concrete-print id network commit w)
      ∙ check_concrete-print _
          (record { id = id; network = network; commit = qm ++ commit; behind = [] })
          w.network_known w.id_class
      ∙ check_commit-print _ _ _ (strict-qm commit w.commit_class)
