-- ===== src/Examples/Acks.antt =====
-- A slow tool call that is acknowledged once.
use evi.Common.{◌≡◌, ◌≤◌, refl, true, List, [], ◌∷◌, length}
use evi.SlowAck.{
  Event, opened, started, ended, fires, closing, run, step, tool_started, tool_ended, cancel, fire,
}
use evi.SlowAck.Once.{run_once}

abbrev two_calls : List Event
two_calls =
    started true 1 "agenda" ∷ started true 2 "notas" ∷ fires ∷ ended 1 ∷ fires ∷ closing ∷ []

one_ack : (run two_calls opened).acks ≡ "agenda" ∷ []
unfolding run step tool_started tool_ended cancel fire
one_ack = refl

run_once_example : length (run two_calls opened).acks ≤ 1
run_once_example = run_once two_calls
