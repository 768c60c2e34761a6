-- ===== src/SlowAck.antt =====
-- The acknowledgement of a slow tool call: `SlowAck` of agent/services/slow_ack.py. A fire may come at
-- any time, since a cancelled timer may be running already.
pub mod Once
use evi.Common.{
  ℕ, zero, suc, String, Bool, true, false, not, ◌&&◌, ◌||◌, List, [], ◌∷◌, ◌==◌, if◌then◌else◌,
  select,
}

-- A running tool call, by its key.
pub record Call : Type 0 where
  pub key : ℕ
  pub tool : String

-- `acks` are the tools that an acknowledgement named, the last one first.
pub record SlowAck : Type 0 where
  pub running : List Call
  pub timer : Bool
  pub sent : Bool
  pub closed : Bool
  pub acks : List String

abbrev pub opened : SlowAck
opened = record { running = []; timer = false; sent = false; closed = false; acks = [] }

-- `self._running[key] = tool`: a key that is there keeps its place.
abbrev pub put : ℕ → String → List Call → List Call
put key tool [] = record { key = key; tool = tool } ∷ []
put key tool (c ∷ cs) =
    let rest = put key tool cs in if c.key == key then record c { tool = tool } ∷ cs else c ∷ rest

abbrev pub is_empty : List Call → Bool
is_empty [] = true
is_empty (c ∷ cs) = false

-- `eligible` says that the delay is positive and the turn one of a channel that is acknowledged.
unfoldable pub tool_started : Bool → ℕ → String → SlowAck → SlowAck
tool_started eligible key tool s =
    if not eligible || (s.closed || s.sent)
    then s
    else record s { running = put key tool s.running; timer = true }

unfoldable pub tool_ended : ℕ → SlowAck → SlowAck
tool_ended key s =
    let left = select (λ c. not (c.key == key)) s.running in
    record s { running = left; timer = not (is_empty left) && s.timer }

unfoldable pub cancel : SlowAck → SlowAck
cancel s = record s { closed = true; running = []; timer = false }

abbrev fire_with : List Call → SlowAck → SlowAck
fire_with [] s = record s { timer = false }
fire_with (c ∷ cs) s = record s { timer = false; sent = true; acks = c.tool ∷ s.acks }

unfoldable pub fire : SlowAck → SlowAck
fire s = if s.closed || s.sent then record s { timer = false } else fire_with s.running s

pub data Event : Type 0 where
  started : Bool → ℕ → String → Event
  ended : ℕ → Event
  closing : Event
  fires : Event

unfoldable pub step : Event → SlowAck → SlowAck
step (started eligible key tool) s = tool_started eligible key tool s
step (ended key) s = tool_ended key s
step closing s = cancel s
step fires s = fire s

unfoldable pub run : List Event → SlowAck → SlowAck
run [] s = s
run (e ∷ es) s = run es (step e s)
