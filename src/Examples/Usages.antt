-- ===== src/Examples/Usages.antt =====
-- A turn that is recorded, and the job of the signals after it.
use evi.Common.{
  ◌≡◌, ◌||◌, max, refl, true, false, not, none, some, String, [], ◌∷◌, str_eq, any, count, arith,
}
use evi.Common.Keyed.{Unique}
use evi.TurnLog.{Turns, insert_turn}
use evi.TurnLog.Collector.{
  Collector, Ended, Around, start_turn, is_test_session, record_outcome, on_tool_start, finish_call,
  tools, merge_tools, has_failed, record_turn,
}
use evi.TurnLog.Tools.{tools_reported}
use evi.TurnLog.Usage.{
  Wording, run_usage_signals, links, scan, rows_until, compute_signals, store_signals,
  is_command_turn, says_cant, cant_do_patterns, tokens, stopwords,
}
use evi.TurnLog.Settled.{run_usage_signals_again}

-- Two calls, of which one raises, and an outcome of a third tool.
abbrev collected : Collector
unfolding start_turn record_outcome on_tool_start finish_call
collected = record_outcome "mail" true "" (
    finish_call 2 true 30 (
      on_tool_start 2 (some "notes") 20 (
        finish_call 1 false 15 (
          record_outcome "tasks" true "" (
            on_tool_start 1 (some "tasks") 10
              (start_turn (some "telegram") (some "tg-1") false "text" "oi" 1))))))

tools_reported_example :
    (count (λ t. str_eq t.name "tasks") (tools collected)
      ≡ max
          (count (λ x. str_eq x.name "tasks") collected.calls)
          (count (λ w. str_eq w.name "tasks") collected.windmill))
    × (any has_failed (tools collected)
        ≡ (any (λ x. x.err) collected.calls || any (λ w. not w.ok) collected.windmill))
tools_reported_example = tools_reported collected "tasks"

abbrev ended : String → Ended
ended text = record {
  session_id = "tg-1";
  channel = "telegram";
  user_text = text;
  reply_text = some "feito";
  latency_ms = 40;
  error = none;
  is_test = false;
}

abbrev around : Around
around = record { has_database = true; briefing_enabled = true; insert_ok = true }

abbrev cut : String → String
cut text = text

abbrev table : Turns
unfolding record_turn
table =
    (record_turn cut around (ended "na verdade era outra") (some collected) 2000
      (record_turn cut around (ended "marca") (some collected) 1000
        (record { rows = []; next_id = 1 })).2).2

abbrev wording : Wording
wording = record {
  normalize = λ s. s;
  lstrip = λ s. s;
  split = λ s. s ∷ [];
  correction_re = λ s. str_eq s "na verdade era outra";
}

table-Unique : Unique (λ r. r.id) table.rows
unfolding table insert_turn
table-Unique = (((λ e. omega (arith, e)), tt), (tt, tt))

run_usage_signals_again_example :
    ((run_usage_signals wording 0 5000 (run_usage_signals wording 0 5000 table).1).1
      ≡ (run_usage_signals wording 0 5000 table).1)
    × ((run_usage_signals wording 0 5000 (run_usage_signals wording 0 5000 table).1).0.updated ≡ 0)
run_usage_signals_again_example = run_usage_signals_again wording 0 5000 table table-Unique

-- The first run stores both signals of the first turn.
first_run : (run_usage_signals wording 0 5000 table).0.updated ≡ 2
unfolding table run_usage_signals links scan rows_until compute_signals store_signals
    is_command_turn says_cant cant_do_patterns tokens stopwords insert_turn tools merge_tools
    is_test_session collected
first_run = refl
