-- ===== src/Event/Bus.antt =====
-- event/event.go: events, handlers and the bus. A handler acts on a state `S`, the state of all
-- that the subscribers share. The lock is not modelled: the operations are taken one at a time, as it
-- has them, but for handlers that themselves publish. Handlers do not change the bus.
use qri.Base.{
  ℕ, List, [], ◌∷◌, ◌++◌, Bool, true, false, Str, str_eq, length, is_empty, if◌then◌else◌, ◌+◌,
  Option, none, some,
}
use qri.Base.Int.{ℤ}

pub record Event (P : Type 0) : Type 0 where
  pub event_type : Str
  pub timestamp : ℤ
  pub session_id : Str
  pub payload : P

pub data BusError (E : Type 0) : Type 0 where
  bus_closed : BusError E
  from_handler : E → BusError E

abbrev pub Handler : Type 0 → Type 0 → Type 0 → Type 0
Handler P S E = Event P → S → Option E × S

-- `map[K][]Handler`: a key stands in it once.
abbrev pub Handlers : Type 0 → Type 0
Handlers H = List (Str × List H)

unfoldable pub handlers_at : {H : Type 0} → Str → Handlers H → List H
handlers_at k [] = []
handlers_at k ((j, hs) ∷ rest) = let later = handlers_at k rest in if str_eq j k then hs else later

-- `m[k] = append(m[k], h)`
unfoldable pub add_handler : {H : Type 0} → Str → H → Handlers H → Handlers H
add_handler k h [] = (k, h ∷ []) ∷ []
add_handler k h ((j, hs) ∷ rest) =
    let later = add_handler k h rest in
    if str_eq j k then (j, hs ++ h ∷ []) ∷ rest else (j, hs) ∷ later

pub record Bus (H : Type 0) : Type 0 where
  pub closed : Bool
  pub subs : Handlers H
  pub all_subs : List H
  pub id_subs : Handlers H

-- `NewBus`
unfoldable pub new_bus : {H : Type 0} → Bus H
new_bus = record { closed = false; subs = []; all_subs = []; id_subs = [] }

-- What happens to a bus when its context ends.
unfoldable pub close_bus : {H : Type 0} → Bus H → Bus H
close_bus b = record b { closed = true }

unfoldable pub add_handlers : {H : Type 0} → H → List Str → Handlers H → Handlers H
add_handlers h [] m = m
add_handlers h (t ∷ ts) m = add_handlers h ts (add_handler t h m)

unfoldable pub subscribe_types : {H : Type 0} → H → List Str → Bus H → Bus H
subscribe_types h event_types b = record b { subs = add_handlers h event_types b.subs }

unfoldable pub subscribe_id : {H : Type 0} → H → Str → Bus H → Bus H
subscribe_id h session_id b = record b { id_subs = add_handler session_id h b.id_subs }

unfoldable pub subscribe_all : {H : Type 0} → H → Bus H → Bus H
subscribe_all h b = record b { all_subs = b.all_subs ++ h ∷ [] }

unfoldable pub count_handlers : {H : Type 0} → Handlers H → ℕ
count_handlers [] = 0
count_handlers ((k, hs) ∷ rest) = length hs + count_handlers rest

unfoldable pub num_subscribers : {H : Type 0} → Bus H → ℕ
num_subscribers b = count_handlers b.subs + count_handlers b.id_subs + length b.all_subs

abbrev pub after_handler :
    {S E : Type 0} → Option E × S → (S → Option (BusError E) × S) → Option (BusError E) × S
after_handler (some e, s) next = (some (from_handler e), s)
after_handler (none, s) next = next s

module _ {P S E : Type 0} where
  -- The loops of `publish`: `next` is what follows the loop.
  unfoldable pub run_handlers :
      List (Handler P S E) → Event P → (S → Option (BusError E) × S) → S → Option (BusError E) × S
  run_handlers [] e next s = next s
  run_handlers (h ∷ hs) e next s = after_handler (h e s) (run_handlers hs e next)

  -- `publish`, with the time of the event.
  unfoldable pub publish_event :
      Bus (Handler P S E) → ℤ → Str → Str → P → S → Option (BusError E) × S
  publish_event b now typ session_id payload s =
      let e : Event P = record {
        event_type = typ;
        timestamp = now;
        session_id = session_id;
        payload = payload;
      } in
      let last = run_handlers b.all_subs e (λ t. (none, t)) in
      let middle =
        if is_empty session_id
        then last
        else run_handlers (handlers_at session_id b.id_subs) e last in
      if b.closed then (some bus_closed, s) else run_handlers (handlers_at typ b.subs) e middle s

  -- `Publish`
  abbrev pub publish : Bus (Handler P S E) → ℤ → Str → P → S → Option (BusError E) × S
  publish b now typ payload s = publish_event b now typ [] payload s
