-- ===== src/Repo/Parse.antt =====
-- repo/parse.go: `ParseDatasetRef`, the older parser of references. `decode` is the decoding of a peer id,
-- `is_base58_multihash` decodes with third-party code; both are parameters.
use qri.Base.{
  List, [], ◌∷◌, ◌++◌, Bool, true, false, not, ◌&&◌, ◌==◌, Str, str, is_empty, if◌then◌else◌,
  Option, none, some, split, join,
}
use qri.Repo.Ref.{DatasetRef, empty_dataset_ref}

pub data ReferenceError : Type 0 where
  empty_ref malformed bad_peer_id : ReferenceError

-- `strings.Index` of a byte, with the text before it and behind it.
abbrev pub before_at : Option (Str × Str) → (Str → Str) → Option (Str × Str)
before_at none f = none
before_at (some (s, t)) f = some (f s, t)

unfoldable pub cut_at : Str → Option (Str × Str)
cut_at [] = none
cut_at (c ∷ cs) =
    let later = cut_at cs in if c == b'@' then some ([], cs) else before_at later (λ s. c ∷ s)

-- `parseAlias`, on the parts of the alias.
abbrev pub alias_parts : List Str → Str × Str
alias_parts [] = ([], [])
alias_parts (peer ∷ []) = (peer, [])
alias_parts (peer ∷ dataset ∷ toks) = (peer, dataset)

unfoldable pub parse_alias : Str → Str × Str
parse_alias alias = alias_parts (split b'/' alias)

abbrev pub id_or_empty : Option Str → Str
id_or_empty none = []
id_or_empty (some id) = id

module _ {D : Type 0} where
  abbrev pub nothing_set : DatasetRef D → Bool
  nothing_set r = is_empty r.profile_id && is_empty r.peername && is_empty r.name && is_empty r.path

  -- The check at the end, which has the last word on the error.
  abbrev pub with_error :
      DatasetRef D → Option ReferenceError → DatasetRef D × Option ReferenceError
  with_error r e = (r, if nothing_set r then some malformed else e)

  abbrev pub identified :
      Str × Str → Str × Str × Option ReferenceError → DatasetRef D × Option ReferenceError
  identified (peer, name) (id, path, e) =
      with_error
        (record empty_dataset_ref { peername = peer; name = name; profile_id = id; path = path }) e

module _ (decode : Str → Option Str) (is_base58_multihash : Str → Bool) where
  -- The id that stands alone.
  abbrev pub lone_id : Option Str → Str × Str × Option ReferenceError
  lone_id none = ([], [], some bad_peer_id)
  lone_id (some id) = (id, [], none)

  -- `parseIdentifiers`, on the parts: the profile id, the path and the error.
  unfoldable pub identifiers : List Str → Str × Str × Option ReferenceError
  identifiers [] = ([], [], some malformed)
  identifiers (id ∷ []) = if is_empty id then ([], [], none) else lone_id (decode id)
  identifiers (id ∷ path ∷ []) = (
    id_or_empty (decode id),
    if is_base58_multihash id && is_base58_multihash path then str "/ipfs/" ++ path else path,
    none,
  )
  identifiers (id ∷ network ∷ hash ∷ toks) =
      (id_or_empty (decode id), b'/' ∷ (network ++ b'/' ∷ hash), none)

  unfoldable pub parse_identifiers : Str → Str × Str × Option ReferenceError
  parse_identifiers ids = identifiers (split b'/' ids)

  -- The rest of the path from the second hash on; `before` is the part in front of it.
  abbrev pub hash_path : Str → List Str → Str
  hash_path before toks =
      if is_base58_multihash before
      then str "/ipfs/" ++ join b'/' toks
      else b'/' ∷ (before ++ b'/' ∷ join b'/' toks)

  module _ {D : Type 0} where
    -- The loop over the parts of a text without an `@`.
    unfoldable pub parts :
        (peername datasetname pid : Bool) → (before : Str) → List Str → DatasetRef D → DatasetRef D
    parts peername datasetname pid before [] r = r
    parts peername datasetname pid before (tok ∷ toks) r =
        let next_id =
          parts peername datasetname true tok toks
            (record r { profile_id = id_or_empty (decode tok) }) in
        let next_peer = parts true datasetname pid tok toks (record r { peername = tok }) in
        let next_name = parts peername true pid tok toks (record r { name = tok }) in
        if is_base58_multihash tok
        then (if pid then record r { path = hash_path before (tok ∷ toks) } else next_id)
        else if not peername
        then next_peer
        else if not datasetname
        then next_name
        else record r { path = join b'/' (tok ∷ toks) }

    abbrev pub parse_cut : Str → Option (Str × Str) → DatasetRef D × Option ReferenceError
    parse_cut ref none =
        with_error (parts false false false [] (split b'/' ref) empty_dataset_ref) none
    parse_cut ref (some (alias, ids)) = identified (parse_alias alias) (parse_identifiers ids)

    -- `ParseDatasetRef`: the reference and the error, which Go returns side by side.
    unfoldable pub parse_dataset_ref : Str → DatasetRef D × Option ReferenceError
    parse_dataset_ref [] = (empty_dataset_ref, some empty_ref)
    parse_dataset_ref (c ∷ cs) = parse_cut (c ∷ cs) (cut_at (c ∷ cs))
