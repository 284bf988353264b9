-- ===== src/Transform/Run/Tests.antt =====
-- The run theorem at a concrete run, with an event of another session in the middle.
use mathlib.Core.Path.{◌≡◌, refl}
use qri.Base.{List, [], ◌∷◌, str, map, some}
use qri.Base.Int.{pos, ◌-ℤ◌}
use qri.Transform.Run.{
  step_lifecycle, lifecycle, other_payload, RunEvent, new_state, collect, step_skip,
}
use qri.Transform.Run.Blocks.{Block, skipped, ran, Output, printed, event, block_step}
use qri.Transform.Run.Replay.{run_events, collect-run_events}

abbrev hello : Output
hello = record { kind = printed; time = pos 12; payload = other_payload (str "hello") }

abbrev blocks : List Block
blocks =
    skipped (pos 11) (str "setup") (str "setup") []
    ∷ ran (pos 11) (str "main") (str "transform") [] (hello ∷ []) (pos 15)
        (step_lifecycle [] [] (str "succeeded"))
    ∷ []

abbrev all_events : List RunEvent
all_events =
    event (str "other") step_skip (pos 1) (lifecycle [])
    ∷ run_events (str "run") (pos 10) (lifecycle []) blocks (pos 20) (str "succeeded")

collect-run_events_example :
    collect (new_state (str "run")) all_events ≡ record (new_state (str "run")) {
      status = str "succeeded";
      start_time = some (pos 10);
      stop_time = some (pos 20);
      duration = pos 20 -ℤ pos 10;
      steps = map (block_step (str "run")) blocks;
    }
collect-run_events_example =
    collect-run_events (str "run") all_events (pos 10) (lifecycle []) blocks (pos 20)
      (str "succeeded") refl
