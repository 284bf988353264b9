-- ===== src/Transform/Run/Replay.antt =====
-- A run whose events come in order is collected into what happened in it.
use qri.Base.{◌≡◌, List, [], ◌∷◌, ◌++◌, Str, map, str_eq_refl, ap, ◌∙◌, some}
use qri.Base.Int.{ℤ, ◌-ℤ◌}
use qri.Transform.Run.{
  Payload, lifecycle, RunEvent, transform_start, transform_stop, rs_running, State, new_state,
  lasted, stop_run, add_own_event, add_transform_event, kept, collect,
}
use qri.Transform.Run.Sessions.{own, add_own, collect-own, collect-append}
use qri.Transform.Run.Blocks.{Block, event, blocks_events, block_step, with_steps, collect-blocks}

-- The events of a whole run: it starts, its steps run or are skipped, and it stops.
abbrev pub run_events :
    Str → (start : ℤ) → Payload → List Block → (stop : ℤ) → (status : Str) → List RunEvent
run_events id start p bs stop status =
    event id transform_start start p
    ∷ (blocks_events id bs ++ event id transform_stop stop (lifecycle status) ∷ [])

run_started :
    (id : Str) (t : ℤ) (p : Payload)
    → kept (new_state id) (add_transform_event (new_state id) (event id transform_start t p))
      ≡ record (new_state id) { status = rs_running; start_time = some t }
unfolding add_own_event new_state
run_started id t p =
    ap (kept (new_state id))
      (add_own (new_state id) (event id transform_start t p) (str_eq_refl id))

run_stopped :
    (rs : State) (t : ℤ) (status : Str)
    → kept rs (add_transform_event rs (event rs.id transform_stop t (lifecycle status)))
      ≡ record rs {
        stop_time = some t;
        status = status;
        duration = lasted rs.start_time t rs.duration;
      }
unfolding add_own_event stop_run
run_stopped rs t status =
    ap (kept rs) (add_own rs (event rs.id transform_stop t (lifecycle status)) (str_eq_refl rs.id))

collect-run :
    (id : Str) (start : ℤ) (p : Payload) (bs : List Block) (stop : ℤ) (status : Str)
    → collect (new_state id) (run_events id start p bs stop status) ≡ record (new_state id) {
      status = status;
      start_time = some start;
      stop_time = some stop;
      duration = stop -ℤ start;
      steps = map (block_step id) bs;
    }
unfolding collect new_state
collect-run id start p bs stop status =
    let begun : State = record (new_state id) { status = rs_running; start_time = some start } in
    let last = event id transform_stop stop (lifecycle status) ∷ [] in
    ap (λ r. collect r (blocks_events id bs ++ last)) (run_started id start p)
    ∙ collect-append (blocks_events id bs) last begun
    ∙ ap (λ r. collect r last) (collect-blocks bs begun)
    ∙ run_stopped (with_steps begun (map (block_step id) bs)) stop status

-- Collect any events into the new state of a run. Where those of its session are the events of a
-- whole run, whatever events of other sessions stand between them, the state has the run's
-- status, its times and its duration, and one step for each step of the run, in their order: a
-- skipped one with its name, and one that ran with its status, times, duration and all that it put out.
pub collect-run_events :
    (id : Str) (es : List RunEvent) (start : ℤ) (p : Payload) (bs : List Block) (stop : ℤ)
    (status : Str)
    → own id es ≡ run_events id start p bs stop status
    → collect (new_state id) es ≡ record (new_state id) {
      status = status;
      start_time = some start;
      stop_time = some stop;
      duration = stop -ℤ start;
      steps = map (block_step id) bs;
    }
unfolding new_state
collect-run_events id es start p bs stop status e =
    collect-own es (new_state id)
    ∙ ap (collect (new_state id)) e
    ∙ collect-run id start p bs stop status
