-- ===== src/Event/Tests.antt =====
-- The bus theorem at concrete subscriptions: handlers write their number down, and 3 fails.
use mathlib.Core.Path.{◌≡◌, refl}
use qri.Base.{ℕ, List, [], ◌∷◌, ◌++◌, str, none, some, ◌==◌, if◌then◌else◌}
use qri.Base.Int.{pos}
use qri.Event.Bus.{
  Handler, new_bus, close_bus, bus_closed, publish_event, run_handlers, num_subscribers,
  handlers_at, add_handler, add_handlers, subscribe_types, subscribe_id, subscribe_all,
}
use qri.Event.Order.{
  Subscription, to_types, to_id, to_all, subscribe_each, recipients, weight, publish-subscribe_each,
}

abbrev note : ℕ → Handler ℕ (List ℕ) ℕ
note n e s = (if n == 3 then some n else none, s ++ n ∷ [])

abbrev four : List (Subscription (Handler ℕ (List ℕ) ℕ))
four =
    to_all (note 4)
    ∷ to_id (str "run") (note 2)
    ∷ to_types (str "tf:Start" ∷ str "tf:Stop" ∷ []) (note 1)
    ∷ to_all (note 3)
    ∷ to_all (note 5)
    ∷ []

publish-subscribe_each_example :
    (publish_event (subscribe_each four new_bus) (pos 7) (str "tf:Stop") (str "run") 0 []
      ≡ run_handlers
          (recipients (str "tf:Stop") (str "run") four)
          (record {
            event_type = str "tf:Stop";
            timestamp = pos 7;
            session_id = str "run";
            payload = 0;
          })
          (λ t. (none, t))
          [])
    × (publish_event
          (close_bus (subscribe_each four new_bus))
          (pos 7)
          (str "tf:Stop")
          (str "run")
          0
          []
        ≡ (some bus_closed, []))
    × (num_subscribers (subscribe_each four new_bus) ≡ weight four)
publish-subscribe_each_example =
    publish-subscribe_each four (pos 7) (str "tf:Stop") (str "run") 0 []

delivered :
    (publish_event (subscribe_each four new_bus) (pos 7) (str "tf:Stop") (str "run") 0 []).1
    ≡ 1 ∷ 2 ∷ 4 ∷ 3 ∷ []
unfolding publish_event run_handlers new_bus handlers_at add_handler add_handlers subscribe_types
    subscribe_id subscribe_all
delivered = refl
