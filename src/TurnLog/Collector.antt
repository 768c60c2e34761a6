-- ===== src/TurnLog/Collector.antt =====
-- agent/services/turn_log.py: what is collected during a turn, and the row that is made of it.
-- Instants are milliseconds; the acknowledgement of a slow tool is that of SlowAck, and the guard is
-- told of the end of a turn in WriteGuard.
use text.Mathlib.Text.{starts_with}
use evi.Common.{
  ℕ, suc, ◌+◌, ◌-◌, String, Bool, false, not, ◌&&◌, ◌||◌, Option, none, some, List, [], ◌∷◌, ◌++◌,
  ◌==◌, max, zero, str_eq, if◌then◌else◌, any, select, find?, length, get_or,
}
use evi.TurnLog.{ToolUse, NewTurn, Turns, insert_turn}

-- An element of `_windmill`.
pub record Outcome : Type 0 where
  pub name : String
  pub ok : Bool
  pub reason : Option String

-- An element of `_calls`.
pub record Call : Type 0 where
  pub name : String
  pub ms : Option ℕ
  pub err : Bool

-- An element of `_running`.
pub record Running : Type 0 where
  pub run_id : ℕ
  pub index : ℕ
  pub t0 : ℕ

-- What a deletion that is staged shows.
pub record Preview : Type 0 where
  pub count : ℕ
  pub subjects : List String

pub record Collector : Type 0 where
  pub channel : Option String
  pub user_text : String
  pub turn_seq : ℕ
  pub input_kind : String
  pub session_id : Option String
  pub is_test : Bool
  pub windmill : List Outcome
  pub calls : List Call
  pub running : List Running
  pub pending_preview : Option Preview
  pub llm_calls : ℕ
  pub tokens_in : ℕ
  pub tokens_out : ℕ

abbrev pub starts_with_any : List String → String → Bool
starts_with_any ps text = any (λ p. starts_with text p) ps

unfoldable pub is_test_session : Option String → Bool
is_test_session none = false
is_test_session (some sid) =
    not (str_eq sid "")
    && starts_with_any ("evi-test" ∷ "test-" ∷ "health-check" ∷ "tg-digest-verify" ∷ []) sid

-- `_next_turn_seq`: the clock, or one more than the last.
unfoldable pub next_turn_seq : ℕ → ℕ → ℕ
next_turn_seq time_ns last_seq = max time_ns (suc last_seq)

abbrev pub non_empty : String → String → String
non_empty text other = if str_eq text "" then other else text

-- `start_turn`, with the sequence number that the turn was given.
unfoldable pub start_turn : Option String → Option String → Bool → String → String → ℕ → Collector
unfolding is_test_session
start_turn channel session_id is_test input_kind user_text turn_seq = record {
  channel = channel;
  user_text = user_text;
  turn_seq = turn_seq;
  input_kind = non_empty input_kind "text";
  session_id = session_id;
  is_test = is_test || is_test_session session_id;
  windmill = [];
  calls = [];
  running = [];
  pending_preview = none;
  llm_calls = 0;
  tokens_in = 0;
  tokens_out = 0;
}

-- An empty reason is none.
unfoldable pub record_outcome : String → Bool → String → Collector → Collector
record_outcome tool ok reason c =
    let why = if str_eq reason "" then none else some reason in
    record c { windmill = c.windmill ++ record { name = tool; ok = ok; reason = why } ∷ [] }

-- `record_tool_outcome`, where a turn may be in progress.
unfoldable pub record_tool_outcome : String → Bool → String → Option Collector → Option Collector
unfolding record_outcome
record_tool_outcome tool ok reason none = none
record_tool_outcome tool ok reason (some c) =
    if str_eq tool "" then some c else some (record_outcome tool ok reason c)

unfoldable pub note_pending_created : ℕ → List String → Option Collector → Option Collector
note_pending_created count subjects none = none
note_pending_created count subjects (some c) =
    some (record c { pending_preview = some (record { count = count; subjects = subjects }) })

unfoldable pub on_chat_model_start : Collector → Collector
on_chat_model_start c = record c { llm_calls = suc c.llm_calls }

-- With the tokens that were used.
unfoldable pub on_llm_end : ℕ → ℕ → Collector → Collector
on_llm_end tin tout c = record c { tokens_in = c.tokens_in + tin; tokens_out = c.tokens_out + tout }

abbrev pub put : Running → List Running → List Running
put r [] = r ∷ []
put r (x ∷ xs) = let rest = put r xs in if x.run_id == r.run_id then r ∷ xs else x ∷ rest

-- `name` is that of the arguments of the callback, none where it has none.
unfoldable pub on_tool_start : ℕ → Option String → ℕ → Collector → Collector
on_tool_start run_id name now c =
    let call : Call = record { name = non_empty (get_or name "") "?"; ms = none; err = false } in
    record c {
      calls = c.calls ++ call ∷ [];
      running = put (record { run_id = run_id; index = length c.calls; t0 = now }) c.running;
    }

abbrev pub set_at : ℕ → (Call → Call) → List Call → List Call
set_at n f [] = []
set_at zero f (x ∷ xs) = f x ∷ xs
set_at (suc n) f (x ∷ xs) = x ∷ set_at n f xs

abbrev pub finished : ℕ → Bool → ℕ → Option Running → Collector → Collector
finished run_id error now none c = c
finished run_id error now (some r) c = record c {
  calls = set_at r.index (λ x. record x { ms = some (now - r.t0); err = error }) c.calls;
  running = select (λ x. not (x.run_id == run_id)) c.running;
}

-- `on_tool_end` and `on_tool_error`
unfoldable pub finish_call : ℕ → Bool → ℕ → Collector → Collector
finish_call run_id error now c =
    finished run_id error now (find? (λ r. r.run_id == run_id) c.running) c

-- The first outcome of the name that is left, and the others.
abbrev pub take_outcome : String → List Outcome → Option Outcome × List Outcome
take_outcome name [] = (none, [])
take_outcome name (w ∷ ws) =
    let (found, rest) = take_outcome name ws in
    if str_eq w.name name then (some w, ws) else (found, w ∷ rest)

abbrev pub entry_of : Call → Option Outcome → ToolUse
entry_of call o =
    let ok : Option Bool = elim o [ none ↦ none | some w ↦ some w.ok ] in
    let reason : Option String = elim o [ none ↦ none | some w ↦ w.reason ] in
    record {
      name = call.name;
      ok = if call.err then some false else ok;
      reason = if call.err then some "exception" else reason;
      ms = call.ms;
    }

abbrev pub left_over : List Outcome → List ToolUse
left_over [] = []
left_over (w ∷ ws) =
    record { name = w.name; ok = some w.ok; reason = w.reason; ms = none } ∷ left_over ws

-- The calls in their order, each with the outcome of its name, then the outcomes that are left.
unfoldable pub merge_tools : List Call → List Outcome → List ToolUse
merge_tools [] pending = left_over pending
merge_tools (call ∷ calls) pending =
    let (found, rest) = take_outcome call.name pending in
    entry_of call found ∷ merge_tools calls rest

unfoldable pub tools : Collector → List ToolUse
unfolding merge_tools
tools c = merge_tools c.calls c.windmill

pub data TurnOutcome : Type 0 where
  error : TurnOutcome
  tool_failed : TurnOutcome
  ok : TurnOutcome

-- `t.get("ok") is False`
abbrev pub has_failed : ToolUse → Bool
has_failed t = elim t.ok [ none ↦ false | some b ↦ not b ]

-- The arguments of `record_turn`.
pub record Ended : Type 0 where
  pub session_id : String
  pub channel : String
  pub user_text : String
  pub reply_text : Option String
  pub latency_ms : ℕ
  pub error : Option String
  pub is_test : Bool

-- What surrounds it: whether there is a database, whether briefings are on, whether the insert returns.
pub record Around : Type 0 where
  pub has_database : Bool
  pub briefing_enabled : Bool
  pub insert_ok : Bool

abbrev pub has_text : Option String → Bool
has_text none = false
has_text (some text) = not (str_eq text "")

abbrev pub non_zero : ℕ → Option ℕ
non_zero n = if n == 0 then none else some n

abbrev pub tools_of : Option Collector → List ToolUse
unfolding tools
tools_of none = []
tools_of (some c) = tools c

abbrev pub new_turn : Ended → Option Collector → Bool → List ToolUse → NewTurn
new_turn e o test tools = record {
  session_id = e.session_id;
  channel = e.channel;
  user_text = e.user_text;
  reply_text = e.reply_text;
  tools = tools;
  latency_ms = some e.latency_ms;
  llm_calls = elim o [ none ↦ none | some c ↦ some c.llm_calls ];
  error = e.error;
  is_test = test;
  tokens_in = elim o [ none ↦ none | some c ↦ non_zero c.tokens_in ];
  tokens_out = elim o [ none ↦ none | some c ↦ non_zero c.tokens_out ];
  input_kind = elim o [ none ↦ "text" | some c ↦ c.input_kind ];
}

abbrev pub outcome_of : Ended → List ToolUse → TurnOutcome
outcome_of e tools =
    if has_text e.error
    then TurnOutcome.error
    else if any has_failed tools
    then TurnOutcome.tool_failed
    else TurnOutcome.ok

-- The outcome that is counted, where the turn is no test, whether `note_user_reply` is called, and the
-- table.
unfoldable pub record_turn :
    (String → String)
    → Around
    → Ended
    → Option Collector
    → ℕ
    → Turns
    → Option TurnOutcome × Bool × Turns
unfolding is_test_session insert_turn tools
record_turn cut env e o db_now s =
    let test = e.is_test || is_test_session (some e.session_id) in
    let used = tools_of o in
    (
      if test then none else some (outcome_of e used),
      (not test && str_eq e.channel "telegram") && (env.has_database && env.briefing_enabled),
      if env.has_database && env.insert_ok
          then (insert_turn cut (new_turn e o test used) db_now s).0
          else s,
    )
