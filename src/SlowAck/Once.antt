-- ===== src/SlowAck/Once.antt =====
-- At most one acknowledgement, none after the end of the turn, and what an armed timer means.
use evi.Common.{
  ℕ, ◌≤◌, ◌≡◌, refl, ◌∙◌, String, true, false, not, ◌||◌, List, [], ◌∷◌, if◌then◌else◌, length,
  if_both, arith,
}
use evi.SlowAck.{
  Call, SlowAck, opened, put, is_empty, tool_started, tool_ended, cancel, fire_with, fire, Event,
  started, ended, closing, fires, step, run,
}

-- One acknowledgement where one is noted as sent and none elsewhere; an armed timer has a running
-- tool, an open turn, and nothing sent.
pub record IsSound (s : SlowAck) : Type 0 where
  pub acks : length s.acks ≡ (if s.sent then 1 else 0)
  pub armed : s.timer ≡ true → (is_empty s.running ≡ false) × (s.closed ≡ false) × (s.sent ≡ false)

is_empty-put : (key : ℕ) (tool : String) (cs : List Call) → is_empty (put key tool cs) ≡ false
is_empty-put key tool [] = refl
is_empty-put key tool (c ∷ cs) = ground arith

fire_with-IsSound :
    (cs : List Call) (s : SlowAck) → s.sent ≡ false → IsSound s → IsSound (fire_with cs s)
fire_with-IsSound [] s e h = record { acks = h.acks; armed = λ t. ground arith }
fire_with-IsSound (c ∷ cs) s e h = record {
  acks = ground (arith, h.acks);
  armed = λ t. ground arith;
}

pub step-IsSound : (e : Event) (s : SlowAck) → IsSound s → IsSound (step e s)
unfolding step tool_started tool_ended cancel fire
step-IsSound (started eligible key tool) s h =
    if_both IsSound (not eligible || (s.closed || s.sent)) (λ _. h)
      (λ may. record {
        acks = h.acks;
        armed = λ _. (is_empty-put key tool s.running, ground arith, ground arith);
      })
step-IsSound (ended key) s h = record {
  acks = h.acks;
  armed = λ t. let a = h.armed (ground arith) in (ground arith, a.1, a.2);
}
step-IsSound closing s h = record { acks = h.acks; armed = λ t. ground arith }
step-IsSound fires s h =
    if_both IsSound (s.closed || s.sent) (λ _. record { acks = h.acks; armed = λ t. ground arith })
      (λ may. fire_with-IsSound s.running s (ground arith) h)

run-IsSound : (es : List Event) (s : SlowAck) → IsSound s → IsSound (run es s)
unfolding run
run-IsSound [] s h = h
run-IsSound (e ∷ es) s h = run-IsSound es (step e s) (step-IsSound e s h)

-- In every sequence of starts, ends, fires and closings from a new turn, at most one acknowledgement is
-- sent.
pub run_once : (es : List Event) → length (run es opened).acks ≤ 1
run_once es =
    let h = run-IsSound es opened (record { acks = refl; armed = λ t. ground arith }) in
    ground (arith, h.acks)

closed_step :
    (e : Event) (s : SlowAck)
    → s.closed ≡ true
    → ((step e s).closed ≡ true) × ((step e s).acks ≡ s.acks)
unfolding step tool_started tool_ended cancel fire
closed_step (started eligible key tool) s c = (ground arith, ground arith)
closed_step (ended key) s c = (c, refl)
closed_step closing s c = (refl, refl)
closed_step fires s c = (ground arith, ground arith)

closed_run : (es : List Event) (s : SlowAck) → s.closed ≡ true → (run es s).acks ≡ s.acks
unfolding run
closed_run [] s c = refl
closed_run (e ∷ es) s c = let one = closed_step e s c in closed_run es (step e s) one.0 ∙ one.1

-- After the end of the turn nothing more is sent, whatever starts, ends or fires.
pub cancel_quiet : (es : List Event) (s : SlowAck) → (run es (cancel s)).acks ≡ s.acks
unfolding cancel
cancel_quiet es s = closed_run es (cancel s) refl
