-- ===== src/Event/Order.antt =====
-- What a bus delivers, in terms of the subscriptions that were made on it.
use qri.Base.{
  ℕ, ◌≡◌, refl, inl, inr, List, [], ◌∷◌, ◌++◌, false, Str, str_eq, str_eq_iff, length, is_empty,
  if◌then◌else◌, arith, suc, ◌+◌, Bool-cases, ap, sym, ◌∙◌, Option, none, some, length-append,
  append_assoc, append-nil,
}
use mathlib.Core.Path.{fun_ext}
use qri.Base.Int.{ℤ}
use qri.Event.Bus.{
  Event, Handler, Handlers, Bus, BusError, bus_closed, new_bus, close_bus, handlers_at, add_handler,
  add_handlers, subscribe_types, subscribe_id, subscribe_all, count_handlers, num_subscribers,
  after_handler, run_handlers, publish_event,
}

-- A call of one of the three methods that subscribe.
pub data Subscription (H : Type 0) : Type 0 where
  to_types : List Str → H → Subscription H
  to_id : Str → H → Subscription H
  to_all : H → Subscription H

module _ {H : Type 0} where
  abbrev pub subscribe : Subscription H → Bus H → Bus H
  subscribe (to_types ts h) b = subscribe_types h ts b
  subscribe (to_id k h) b = subscribe_id h k b
  subscribe (to_all h) b = subscribe_all h b

  abbrev pub subscribe_each : List (Subscription H) → Bus H → Bus H
  subscribe_each [] b = b
  subscribe_each (s ∷ ss) b = subscribe_each ss (subscribe s b)

  -- The handler, once for each time that the type is named.
  abbrev pub copies : Str → List Str → H → List H
  copies typ [] h = []
  copies typ (t ∷ ts) h = (if str_eq t typ then h ∷ [] else []) ++ copies typ ts h

  -- The handlers of the subscriptions to a type, to a session and to everything, in the order in
  -- which they were made.
  abbrev pub of_type : Str → List (Subscription H) → List H
  of_type typ [] = []
  of_type typ (to_types ts h ∷ ss) = copies typ ts h ++ of_type typ ss
  of_type typ (to_id k h ∷ ss) = of_type typ ss
  of_type typ (to_all h ∷ ss) = of_type typ ss

  abbrev pub of_id : Str → List (Subscription H) → List H
  of_id id [] = []
  of_id id (to_types ts h ∷ ss) = of_id id ss
  of_id id (to_id k h ∷ ss) = (if str_eq k id then h ∷ [] else []) ++ of_id id ss
  of_id id (to_all h ∷ ss) = of_id id ss

  abbrev pub of_all : List (Subscription H) → List H
  of_all [] = []
  of_all (to_types ts h ∷ ss) = of_all ss
  of_all (to_id k h ∷ ss) = of_all ss
  of_all (to_all h ∷ ss) = h ∷ of_all ss

  abbrev pub weight : List (Subscription H) → ℕ
  weight [] = 0
  weight (to_types ts h ∷ ss) = length ts + weight ss
  weight (to_id k h ∷ ss) = 1 + weight ss
  weight (to_all h ∷ ss) = 1 + weight ss

  handlers_at-add :
      (k j : Str) (h : H) (m : Handlers H)
      → handlers_at k (add_handler j h m) ≡ handlers_at k m ++ (if str_eq j k then h ∷ [] else [])
  unfolding handlers_at add_handler
  handlers_at-add k j h [] = ground arith
  handlers_at-add k j h ((i, hs) ∷ m) = ground (
    arith,
    handlers_at-add k j h m,
    str_eq_iff i j,
    str_eq_iff i k,
    str_eq_iff j k,
    append-nil hs,
    append-nil (handlers_at k m),
  )

  handlers_at-add_each :
      (k : Str) (h : H) (ts : List Str) (m : Handlers H)
      → handlers_at k (add_handlers h ts m) ≡ handlers_at k m ++ copies k ts h
  unfolding add_handlers
  handlers_at-add_each k h [] m = sym (append-nil (handlers_at k m))
  handlers_at-add_each k h (t ∷ ts) m =
      handlers_at-add_each k h ts (add_handler t h m)
      ∙ ap (λ l. l ++ copies k ts h) (handlers_at-add k t h m)
      ∙ append_assoc (handlers_at k m) _ _

  of_type_lem :
      (typ : Str) (ss : List (Subscription H)) (b : Bus H)
      → handlers_at typ (subscribe_each ss b).subs ≡ handlers_at typ b.subs ++ of_type typ ss
  unfolding subscribe_types subscribe_id subscribe_all
  of_type_lem typ [] b = sym (append-nil (handlers_at typ b.subs))
  of_type_lem typ (to_types ts h ∷ ss) b =
      of_type_lem typ ss (subscribe_types h ts b)
      ∙ ap (λ l. l ++ of_type typ ss) (handlers_at-add_each typ h ts b.subs)
      ∙ append_assoc (handlers_at typ b.subs) _ _
  of_type_lem typ (to_id k h ∷ ss) b = of_type_lem typ ss (subscribe_id h k b)
  of_type_lem typ (to_all h ∷ ss) b = of_type_lem typ ss (subscribe_all h b)

  of_id_lem :
      (id : Str) (ss : List (Subscription H)) (b : Bus H)
      → handlers_at id (subscribe_each ss b).id_subs ≡ handlers_at id b.id_subs ++ of_id id ss
  unfolding subscribe_types subscribe_id subscribe_all
  of_id_lem id [] b = sym (append-nil (handlers_at id b.id_subs))
  of_id_lem id (to_types ts h ∷ ss) b = of_id_lem id ss (subscribe_types h ts b)
  of_id_lem id (to_id k h ∷ ss) b =
      of_id_lem id ss (subscribe_id h k b)
      ∙ ap (λ l. l ++ of_id id ss) (handlers_at-add id k h b.id_subs)
      ∙ append_assoc (handlers_at id b.id_subs) _ _
  of_id_lem id (to_all h ∷ ss) b = of_id_lem id ss (subscribe_all h b)

  of_all_lem :
      (ss : List (Subscription H)) (b : Bus H)
      → (subscribe_each ss b).all_subs ≡ b.all_subs ++ of_all ss
  unfolding subscribe_types subscribe_id subscribe_all
  of_all_lem [] b = sym (append-nil b.all_subs)
  of_all_lem (to_types ts h ∷ ss) b = of_all_lem ss (subscribe_types h ts b)
  of_all_lem (to_id k h ∷ ss) b = of_all_lem ss (subscribe_id h k b)
  of_all_lem (to_all h ∷ ss) b =
      of_all_lem ss (subscribe_all h b) ∙ append_assoc b.all_subs (h ∷ []) (of_all ss)

  closed_lem : (ss : List (Subscription H)) (b : Bus H) → (subscribe_each ss b).closed ≡ b.closed
  unfolding subscribe_types subscribe_id subscribe_all
  closed_lem [] b = refl
  closed_lem (to_types ts h ∷ ss) b = closed_lem ss (subscribe_types h ts b)
  closed_lem (to_id k h ∷ ss) b = closed_lem ss (subscribe_id h k b)
  closed_lem (to_all h ∷ ss) b = closed_lem ss (subscribe_all h b)

  count-add :
      (k : Str) (h : H) (m : Handlers H)
      → count_handlers (add_handler k h m) ≡ suc (count_handlers m)
  unfolding count_handlers add_handler
  count-add k h [] = refl
  count-add k h ((j, hs) ∷ m) = ground (arith, count-add k h m, length-append hs (h ∷ []))

  count-add_each :
      (h : H) (ts : List Str) (m : Handlers H)
      → count_handlers (add_handlers h ts m) ≡ length ts + count_handlers m
  unfolding add_handlers
  count-add_each h [] m = omega arith
  count-add_each h (t ∷ ts) m =
      omega (arith, count-add_each h ts (add_handler t h m), count-add t h m)

  num_subscribers_lem :
      (ss : List (Subscription H)) (b : Bus H)
      → num_subscribers (subscribe_each ss b) ≡ weight ss + num_subscribers b
  unfolding num_subscribers subscribe_types subscribe_id subscribe_all
  num_subscribers_lem [] b = omega arith
  num_subscribers_lem (to_types ts h ∷ ss) b =
      omega (arith, num_subscribers_lem ss (subscribe_types h ts b), count-add_each h ts b.subs)
  num_subscribers_lem (to_id k h ∷ ss) b =
      omega (arith, num_subscribers_lem ss (subscribe_id h k b), count-add k h b.id_subs)
  num_subscribers_lem (to_all h ∷ ss) b =
      omega (arith, num_subscribers_lem ss (subscribe_all h b), length-append b.all_subs (h ∷ []))

num_subscribers_new : (H : Type 0) → num_subscribers {H = H} new_bus ≡ 0
unfolding num_subscribers new_bus count_handlers
num_subscribers_new H = refl

-- The handlers that an event of the type and session goes to.
abbrev pub recipients : {H : Type 0} → Str → Str → List (Subscription H) → List H
recipients typ session_id ss =
    of_type typ ss ++ ((if is_empty session_id then [] else of_id session_id ss) ++ of_all ss)

module _ {P S E : Type 0} where
  run_handlers-append :
      (hs ks : List (Handler P S E)) (e : Event P) (next : S → Option (BusError E) × S)
      → run_handlers (hs ++ ks) e next ≡ run_handlers hs e (run_handlers ks e next)
  unfolding run_handlers
  run_handlers-append [] ks e next = refl
  run_handlers-append (h ∷ hs) ks e next =
      fun_ext λ s. ap (after_handler (h e s)) (run_handlers-append hs ks e next)

  publish_open :
      (b : Bus (Handler P S E)) (now : ℤ) (typ id : Str) (p : P) (e : Event P) (s : S)
      → e ≡ record { event_type = typ; timestamp = now; session_id = id; payload = p }
      → b.closed ≡ false
      → publish_event b now typ id p s
        ≡ run_handlers
            (handlers_at typ b.subs
              ++ ((if is_empty id then [] else handlers_at id b.id_subs) ++ b.all_subs))
            e
            (λ t. (none, t))
            s
  unfolding publish_event
  publish_open b now typ id p e s same open_bus = elim (Bool-cases (is_empty id)) [
    | inl t ↦
        rw (open_bus, t, same)
          (ap (λ f. f s) (sym (run_handlers-append (handlers_at typ b.subs) b.all_subs _ _)))
    | inr f ↦
        rw (open_bus, f, same)
          (ap (λ f. f s)
            (sym (
              run_handlers-append (handlers_at typ b.subs) (handlers_at id b.id_subs ++ b.all_subs)
                _ _
              ∙ ap (run_handlers (handlers_at typ b.subs) _)
                  (run_handlers-append (handlers_at id b.id_subs) b.all_subs _ _))))
  ]

  -- However its handlers were subscribed to a new bus, an event that is published calls those of
  -- its type, then if it has a session id those of that session, then those of all events, each
  -- group in the order of subscription and a handler once for each time that it was subscribed; it
  -- stops at the first error, which it returns. On a bus that was closed it calls none. The bus
  -- counts one subscriber for each subscription and each type named.
  pub publish-subscribe_each :
      (ss : List (Subscription (Handler P S E))) (now : ℤ) (typ id : Str) (p : P) (s : S)
      → (publish_event (subscribe_each ss new_bus) now typ id p s
          ≡ run_handlers
              (recipients typ id ss)
              (record { event_type = typ; timestamp = now; session_id = id; payload = p })
              (λ t. (none, t))
              s)
        × (publish_event (close_bus (subscribe_each ss new_bus)) now typ id p s
            ≡ (some bus_closed, s))
        × (num_subscribers (subscribe_each ss new_bus) ≡ weight ss)
  unfolding new_bus close_bus publish_event handlers_at
  publish-subscribe_each ss now typ id p s =
      let b = subscribe_each ss new_bus in
      let e : Event P = record {
        event_type = typ;
        timestamp = now;
        session_id = id;
        payload = p;
      } in
      (
        publish_open b now typ id p e s refl (closed_lem ss new_bus)
            ∙ ap (λ hs. run_handlers hs e (λ t. (none, t)) s)
                (groups b (of_type_lem typ ss new_bus) (of_id_lem id ss new_bus)
                  (of_all_lem ss new_bus)),
        refl,
        omega (arith, num_subscribers_lem ss new_bus, num_subscribers_new (Handler P S E)),
      )
    where
      groups :
          (b : Bus (Handler P S E))
          → handlers_at typ b.subs ≡ of_type typ ss
          → handlers_at id b.id_subs ≡ of_id id ss
          → b.all_subs ≡ of_all ss
          → handlers_at typ b.subs
              ++ ((if is_empty id then [] else handlers_at id b.id_subs) ++ b.all_subs)
            ≡ recipients typ id ss
      groups b t i a = rw (t, i, a) refl
