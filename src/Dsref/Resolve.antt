-- ===== src/Dsref/Resolve.antt =====
-- dsref/resolve.go and dsref/mem_resolver.go. A resolver returns the reference as it leaves it. The
-- parallel resolver receives the answers of its goroutines in some order: the order is an argument.
use qri.Base.{
  ℕ, List, [], ◌∷◌, ◌++◌, Str, ◌-◌, Result, ok, err, panic, length, is_empty, ◌==◌, if◌then◌else◌,
  Option, none, some,
}
use qri.Base.Assoc.{lookup, insert}
use qri.Dsref.Ref.{Ref, VersionInfo, human}

pub data ResolveError : Type 0 where
  not_found context_done : ResolveError
  other_error : Str → ResolveError

-- The reference behind the pointer, with the source or the error.
abbrev pub Answer : Type 0
Answer = Ref × Result ResolveError Str

-- A nil resolver is `none`.
abbrev pub Resolver : Type 0
Resolver = Option (Ref → Answer)

-- What the loop of `sequentialResolver` does with an answer.
abbrev pub or_next : Answer → (Ref → Answer) → Answer
or_next (ref, err not_found) next = next ref
or_next (ref, out) next = (ref, out)

unfoldable pub sequential : List Resolver → Ref → Answer
sequential [] ref = (ref, err not_found)
sequential (none ∷ rs) ref = sequential rs ref
sequential (some r ∷ rs) ref = or_next (r ref) (sequential rs)

-- `run`: the answer that the goroutine of a resolver sends.
unfoldable pub run : Ref → Resolver → Answer
run ref none = (ref, err not_found)
run ref (some r) = r ref

-- What the `select` of `parallelResolver` receives: an answer, or that the context is done.
pub data Arrival : Type 0 where
  answered : Answer → Arrival
  cancelled : Arrival

-- The loop, while `attempts` answers are to come; `none` while it waits for another arrival. An
-- error leaves the reference as it was.
unfoldable pub await : ℕ → Ref → List Arrival → Option Answer
await attempts ref [] = none
await attempts ref (cancelled ∷ es) = some (ref, err context_done)
await attempts ref (answered (copy, ok source) ∷ es) = some (copy, ok source)
await attempts ref (answered (copy, panic) ∷ es) = some (ref, panic)
await attempts ref (answered (copy, err not_found) ∷ es) =
    let later = await (attempts - 1) ref es in
    if attempts - 1 == 0 then some (ref, err not_found) else later
await attempts ref (answered (copy, err e) ∷ es) = some (ref, err e)

-- `parallelResolver.ResolveRef`, when the arrivals come in this order.
unfoldable pub parallel : List Resolver → Ref → List Arrival → Option Answer
parallel rs ref arrivals = await (length rs) ref arrivals

pub record MemResolver : Type 0 where
  pub username : Str
  pub ref_map : List (Str × Str)
  pub id_map : List (Str × VersionInfo)

unfoldable pub new_mem_resolver : Str → MemResolver
new_mem_resolver username = record { username = username; ref_map = []; id_map = [] }

-- `Put`
unfoldable pub put_info : VersionInfo → MemResolver → MemResolver
put_info info m = record m {
  ref_map = insert (info.username ++ b'/' ∷ info.name) info.init_id m.ref_map;
  id_map = insert info.init_id info m.id_map;
}

unfoldable pub get_info : Str → MemResolver → Option VersionInfo
get_info id m = lookup id m.id_map

-- The empty text where the map has no entry.
abbrev pub or_empty : Option Str → Str
or_empty none = []
or_empty (some s) = s

abbrev pub resolved : Str → Ref → Option VersionInfo → Answer
resolved id ref none = (ref, err not_found)
resolved id ref (some info) = (
  record ref {
    init_id = id;
    profile_id = info.profile_id;
    path = if is_empty ref.path then info.path else ref.path;
  },
  ok [],
)

unfoldable pub mem_resolve_ref : MemResolver → Ref → Answer
mem_resolve_ref m ref =
    let id = or_empty (lookup (human ref) m.ref_map) in resolved id ref (lookup id m.id_map)
