-- ===== src/Repo/Absolute.antt =====
-- repo/parse.go reads back what repo/ref/dataset_ref.go prints.
use qri.Base.{
  ◌≡◌, refl, ◌≢◌, [], ◌∷◌, ◌++◌, Bool, true, false, ◌&&◌, Str, is_empty, Option, none, some, join,
  split-join, Without, arith, ap, ◌∙◌,
}
use qri.Dsref.Ref.{present}
use qri.Repo.Ref.{DatasetRef, empty_dataset_ref, alias_string, absolute}
use qri.Repo.Parse.{
  cut_at, alias_parts, parse_alias, identified, identifiers, parse_identifiers, parse_cut,
  parse_dataset_ref,
}

-- The text before the first `@`.
cut_at-append : (s t : Str) → Without b'@' s → cut_at (s ++ b'@' ∷ t) ≡ some (s, t)
unfolding cut_at
cut_at-append [] t w = refl
cut_at-append (c ∷ cs) t w = ground (arith, cut_at-append cs t w.1)

-- A reference with a name, a profile, a network and a hash.
abbrev pub full_ref : {D : Type 0} → (peer name id network hash : Str) → DatasetRef D
full_ref peer name id network hash = record empty_dataset_ref {
  peername = peer;
  name = name;
  profile_id = id;
  path = b'/' ∷ (network ++ b'/' ∷ hash);
}

present-lem : (s : Str) → s ≢ [] → present s ≡ true
present-lem [] h = absurd (h refl)
present-lem (c ∷ cs) h = refl

parse_alias_lem :
    (peer name : Str)
    → Without b'/' peer
    → Without b'/' name
    → parse_alias (peer ++ b'/' ∷ name) ≡ (peer, name)
unfolding parse_alias join
parse_alias_lem peer name w v = ap alias_parts (split-join b'/' peer (name ∷ []) (w, (v, tt)))

module _ (decode : Str → Option Str) (is_base58_multihash : Str → Bool) where
  parse_identifiers_lem :
      (id shown network hash : Str)
      → Without b'/' shown
      → Without b'/' network
      → Without b'/' hash
      → decode shown ≡ some id
      → parse_identifiers decode is_base58_multihash (shown ++ b'/' ∷ (network ++ b'/' ∷ hash))
        ≡ (id, b'/' ∷ (network ++ b'/' ∷ hash), none)
  unfolding parse_identifiers identifiers join
  parse_identifiers_lem id shown network hash w v u d =
      ap (identifiers decode is_base58_multihash)
        (split-join b'/' shown (network ∷ hash ∷ []) (w, (v, (u, tt))))
      ∙ rw d refl

and-false : (a b c : Bool) → (a && b && c && false) ≡ false
and-false a b c = ground arith

module _ (D : Type 0) (pretty : Str → Str) where
  absolute_lem :
      (peer name id network hash : Str)
      → name ≢ []
      → pretty id ≢ []
      → absolute pretty (full_ref {D = D} peer name id network hash)
        ≡ (peer ++ b'/' ∷ name) ++ b'@' ∷ (pretty id ++ b'/' ∷ (network ++ b'/' ∷ hash))
  unfolding absolute alias_string
  absolute_lem peer name id network hash named shown =
      rw (present-lem name named, present-lem (pretty id) shown) refl

module _ {D : Type 0} (decode : Str → Option Str) (is_base58_multihash : Str → Bool)
    (pretty : Str → Str) where
  parse_dataset_ref-cut_at :
      (s alias ids : Str)
      → cut_at s ≡ some (alias, ids)
      → parse_dataset_ref decode is_base58_multihash {D = D} s
        ≡ identified (parse_alias alias) (parse_identifiers decode is_base58_multihash ids)
  unfolding parse_dataset_ref cut_at
  parse_dataset_ref-cut_at [] alias ids e = cc
  parse_dataset_ref-cut_at (c ∷ cs) alias ids e =
      ap (parse_cut decode is_base58_multihash {D = D} (c ∷ cs)) e

  -- A reference with a name, a profile and a path of a network and a hash is read back from the text that
  -- `Absolute` prints: where no part holds a slash, the alias holds no `@`, the name and the text
  -- of the profile id are not empty, and that text decodes to the id.
  pub parse-absolute :
      (peer name id network hash : Str)
      → Without b'/' peer
      → Without b'/' name
      → Without b'/' (pretty id)
      → Without b'/' network
      → Without b'/' hash
      → Without b'@' (peer ++ b'/' ∷ name)
      → name ≢ []
      → pretty id ≢ []
      → decode (pretty id) ≡ some id
      → parse_dataset_ref decode is_base58_multihash {D = D}
          (absolute pretty (full_ref {D = D} peer name id network hash))
        ≡ (full_ref peer name id network hash, none)
  parse-absolute peer name id network hash w v i n h a named shown d =
      rw (absolute_lem D pretty peer name id network hash named shown) (
        parse_dataset_ref-cut_at _ (peer ++ b'/' ∷ name)
          (pretty id ++ b'/' ∷ (network ++ b'/' ∷ hash)) (cut_at-append (peer ++ b'/' ∷ name) _ a)
        ∙ rw
            (
              parse_alias_lem peer name w v,
              parse_identifiers_lem decode is_base58_multihash id (pretty id) network hash i n h d,
            )
            (rw (and-false (is_empty id) (is_empty peer) (is_empty name)) refl))
