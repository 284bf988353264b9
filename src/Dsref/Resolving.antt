-- ===== src/Dsref/Resolving.antt =====
-- Runs of the resolvers on small data.
use qri.Base.{◌≡◌, refl, List, [], ◌∷◌, str, map, ok, err, none, some}
use qri.Base.Reorder.{Reordered, swap}
use qri.Dsref.Ref.{Ref, empty_ref, empty_info, human}
use qri.Dsref.Resolve.{
  not_found, Answer, Resolver, run, answered, await, parallel, sequential, MemResolver,
  new_mem_resolver, put_info, mem_resolve_ref,
}
use qri.Dsref.Arrivals.{Decided, parallel_answers}

abbrev me_a : Ref
me_a = record empty_ref { username = str "me"; name = str "a" }

abbrev memory : MemResolver
memory =
    put_info
      (record empty_info {
        init_id = str "i";
        username = str "me";
        profile_id = str "p";
        name = str "a";
        path = str "/x";
      })
      (new_mem_resolver (str "me"))

abbrev resolvers : List Resolver
resolvers = none ∷ some (mem_resolve_ref memory) ∷ []

abbrev found : Answer
found = (record me_a { init_id = str "i"; profile_id = str "p"; path = str "/x" }, ok [])

finds_in_memory : sequential resolvers me_a ≡ found
unfolding sequential mem_resolve_ref put_info new_mem_resolver human
finds_in_memory = refl

-- With no resolvers at all no answer ever comes.
waits_without_resolvers : parallel [] me_a [] ≡ none
unfolding parallel await
waits_without_resolvers = refl

memory_first : Reordered (map (run me_a) resolvers) (found ∷ (me_a, err not_found) ∷ [])
unfolding run mem_resolve_ref put_info new_mem_resolver human
memory_first = swap

parallel_answers_example :
    (out : Answer) × (parallel resolvers me_a (map answered (found ∷ (me_a, err not_found) ∷ []))
      ≡ some out)
    × Decided me_a (map (run me_a) resolvers) out
parallel_answers_example =
    parallel_answers resolvers me_a (found ∷ (me_a, err not_found) ∷ []) refl memory_first
