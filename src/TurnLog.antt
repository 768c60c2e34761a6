-- ===== src/TurnLog.antt =====
-- The table `turn_log` of agent/db.py: one row for each turn of the agent, with the feedback of the
-- user and the signals that were found. The cut of a reply is a parameter.
pub mod Collector
pub mod Tools
pub mod Usage
pub mod Stripped
pub mod Settled
use Prim.Native.Char.{code}
use Prim.Native.String.{◌++◌ as cat}
use evi.Common.{
  ℕ, suc, ◌+◌, ◌*◌, String, Bool, true, false, not, ◌&&◌, ◌||◌, Option, none, some, List, [], ◌∷◌,
  ◌++◌, ltb, leb, ◌==◌, str_eq, if◌then◌else◌, any, update, select, sort, is_some, find?, map,
  count,
}

-- An element of `tools`; a missing `ok` counts as true.
pub record ToolUse : Type 0 where
  pub name : String
  pub ok : Option Bool
  pub reason : Option String
  pub ms : Option ℕ

-- The object of `signals`: which of its keys are there.
pub record Signals : Type 0 where
  pub tool_failed : Bool
  pub correction : Bool
  pub rephrase : Bool
  pub cant_do : Bool

abbrev pub no_signals : Signals
no_signals = record { tool_failed = false; correction = false; rephrase = false; cant_do = false }

pub record Turn : Type 0 where
  pub id : ℕ
  pub ts : ℕ
  pub session_id : String
  pub channel : String
  pub user_text : String
  pub reply_text : Option String
  pub tools : List ToolUse
  pub latency_ms : Option ℕ
  pub llm_calls : Option ℕ
  pub error : Option String
  pub is_test : Bool
  pub feedback : Option String
  pub feedback_note : Option String
  pub signals : Signals
  pub tokens_in : Option ℕ
  pub tokens_out : Option ℕ
  pub input_kind : String
  pub tg_message_id : Option ℕ

pub record Turns : Type 0 where
  pub rows : List Turn
  pub next_id : ℕ

-- What the caller of `insert_turn` gives.
pub record NewTurn : Type 0 where
  pub session_id : String
  pub channel : String
  pub user_text : String
  pub reply_text : Option String
  pub tools : List ToolUse
  pub latency_ms : Option ℕ
  pub llm_calls : Option ℕ
  pub error : Option String
  pub is_test : Bool
  pub tokens_in : Option ℕ
  pub tokens_out : Option ℕ
  pub input_kind : String

abbrev pub turn_of : (String → String) → NewTurn → ℕ → ℕ → Turn
turn_of cut t id db_now = record {
  id = id;
  ts = db_now;
  session_id = t.session_id;
  channel = t.channel;
  user_text = t.user_text;
  reply_text = elim t.reply_text [ none ↦ none | some text ↦ some (cut text) ];
  tools = t.tools;
  latency_ms = t.latency_ms;
  llm_calls = t.llm_calls;
  error = t.error;
  is_test = t.is_test;
  feedback = none;
  feedback_note = none;
  signals = no_signals;
  tokens_in = t.tokens_in;
  tokens_out = t.tokens_out;
  input_kind = if str_eq t.input_kind "" then "text" else t.input_kind;
  tg_message_id = none;
}

unfoldable pub insert_turn : (String → String) → NewTurn → ℕ → Turns → Turns × ℕ
insert_turn cut t db_now s = (
  record s { rows = s.rows ++ turn_of cut t s.next_id db_now ∷ []; next_id = suc s.next_id },
  s.next_id,
)

-- Turns that the user made for real.
abbrev pub is_real : ℕ → Turn → Bool
is_real since r = leb since r.ts && (not r.is_test && not (str_eq r.channel "scheduled"))

abbrev pub has_run : ToolUse → Bool
has_run t = elim t.ok [ none ↦ true | some ok ↦ ok ]

abbrev pub tool_names : List ToolUse → List String
tool_names tools = map (λ t. t.name) (select has_run tools)

abbrev pub all_tool_names : List Turn → List String
all_tool_names [] = []
all_tool_names (r ∷ rs) = tool_names r.tools ++ all_tool_names rs

abbrev pub distinct : List String → List String
distinct [] = []
distinct (x ∷ xs) = let rest = distinct xs in if any (str_eq x) rest then rest else x ∷ rest

-- A set: its texts without repetition, the empty one left out.
unfoldable pub capabilities_used_since : ℕ → Turns → List String
capabilities_used_since since s =
    let real = select (is_real since) s.rows in
    select (λ name. not (str_eq name ""))
      (distinct (all_tool_names real ++ map (λ r. cat "input_kind:" r.input_kind) real))

-- (a.ts, a.id) < (b.ts, b.id)
abbrev pub before : Turn → Turn → Bool
before a b = ltb a.ts b.ts || (a.ts == b.ts && ltb a.id b.id)

abbrev pub after : Turn → Turn → Bool
after a b = before b a

abbrev pub first : List Turn → Option Turn
first [] = none
first (r ∷ rs) = some r

-- ORDER BY ts DESC, id DESC LIMIT 1
abbrev pub newest : (Turn → Bool) → List Turn → Option Turn
newest p rows = first (sort after (select p rows))

-- UPDATE … WHERE id = (SELECT …) RETURNING id
abbrev pub update_one : Option Turn → (Turn → Turn) → Turns → Turns × Option ℕ
update_one none f s = (s, none)
update_one (some t) f s = (record s { rows = update (λ r. r.id == t.id) f s.rows }, some t.id)

-- `user_text LIKE '/%'`
abbrev pub is_command : String → Bool
is_command String.[] = false
is_command (String.◌∷◌ c text) = code c == 47

unfoldable pub set_turn_feedback : String → String → Option String → Turns → Turns × Option ℕ
set_turn_feedback session_id feedback note s =
    update_one (newest (λ r. str_eq r.session_id session_id && not (is_command r.user_text)) s.rows)
      (λ r. record r { feedback = some feedback; feedback_note = note }) s

abbrev pub five_minutes : ℕ
five_minutes = 300000000

abbrev pub is_unlinked : String → String → ℕ → Turn → Bool
is_unlinked session_id user_text db_now r =
    (str_eq r.session_id session_id && str_eq r.user_text user_text)
    && (not (is_some r.tg_message_id) && ltb db_now (r.ts + five_minutes))

unfoldable pub set_turn_tg_message_id : String → String → ℕ → ℕ → Turns → Turns × Option ℕ
set_turn_tg_message_id session_id user_text message_id db_now s =
    update_one (newest (is_unlinked session_id user_text db_now) s.rows)
      (λ r. record r { tg_message_id = some message_id }) s

abbrev pub is_message : String → ℕ → Turn → Bool
is_message session_id message_id r =
    str_eq r.session_id session_id
    && elim r.tg_message_id [ none ↦ false | some m ↦ m == message_id ]

unfoldable pub set_turn_feedback_by_message : String → ℕ → String → Turns → Turns × Option ℕ
set_turn_feedback_by_message session_id message_id feedback s =
    update_one (newest (is_message session_id message_id) s.rows)
      (λ r. record r { feedback = some feedback }) s

unfoldable pub list_turns : ℕ → ℕ → Bool → Turns → List Turn
list_turns since until include_test s =
    sort before
      (select (λ r. (leb since r.ts && ltb r.ts until) && (include_test || not r.is_test)) s.rows)

unfoldable pub get_turn : ℕ → Turns → Option Turn
get_turn turn_id s = find? (λ r. r.id == turn_id) s.rows

pub record Around : Type 0 where
  pub prev : Option Turn
  pub next : Option Turn

abbrev pub around : Option Turn → List Turn → Around
around none rows = record { prev = none; next = none }
around (some t) rows = record {
  prev = first (sort after (select (λ r. str_eq r.session_id t.session_id && before r t) rows));
  next = first (sort before (select (λ r. str_eq r.session_id t.session_id && before t r) rows));
}

unfoldable pub get_session_turns_around : ℕ → Turns → Around
unfolding get_turn
get_session_turns_around turn_id s = around (get_turn turn_id s) s.rows

unfoldable pub update_turn_signals : ℕ → Signals → Turns → Turns
update_turn_signals turn_id signals s = record s {
  rows = update (λ r. r.id == turn_id) (λ r. record r { signals = signals }) s.rows;
}

abbrev pub is_old : ℕ → ℕ → Turn → Bool
is_old days db_now r = ltb (r.ts + days * 86400000000) db_now

-- With how many rows were deleted.
unfoldable pub delete_turns_older_than : ℕ → ℕ → Turns → Turns × ℕ
delete_turns_older_than days db_now s = (
  record s { rows = select (λ r. not (is_old days db_now r)) s.rows },
  count (is_old days db_now) s.rows,
)
