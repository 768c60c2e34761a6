-- ===== src/TurnLog/Usage.antt =====
-- agent/services/usage_signals.py: the signals of a turn, and the job that stores them. What rests on
-- re and unicodedata is a parameter; a quotient of 0.6 is one of 3 to 5.
use text.Mathlib.Text.{find? as position, starts_with}
use evi.Common.{
  ℕ, suc, ◌+◌, ◌*◌, String, Bool, true, false, not, ◌&&◌, ◌||◌, Option, none, some, List, [], ◌∷◌,
  ◌++◌, leb, str_eq, if◌then◌else◌, any, select, find?, length, is_some, get_or,
}
use evi.TurnLog.{Signals, no_signals, Turn, Turns, distinct, list_turns, update_turn_signals}
use evi.TurnLog.Collector.{has_failed}

-- `normalize`, `str.lstrip`, `str.split`, and the search for a pattern of a correction in a normalized
-- text.
pub record Wording : Type 0 where
  pub normalize : String → String
  pub lstrip : String → String
  pub split : String → List String
  pub correction_re : String → Bool

abbrev pub next_turn_window : ℕ
next_turn_window = 180000000

unfoldable pub stopwords : List String
stopwords =
    "a" ∷ "o" ∷ "as" ∷ "os" ∷ "um" ∷ "uma" ∷ "uns" ∷ "umas" ∷ "de" ∷ "do" ∷ "da" ∷ "dos" ∷ "das"
    ∷ "em" ∷ "no" ∷ "na" ∷ "nos" ∷ "nas" ∷ "por" ∷ "para" ∷ "pra" ∷ "com" ∷ "e" ∷ "ou" ∷ "que"
    ∷ "se" ∷ "me" ∷ "meu" ∷ "meus" ∷ "minha" ∷ "minhas" ∷ "te" ∷ "seu" ∷ "seus" ∷ "sua" ∷ "suas"
    ∷ "eu" ∷ "voce" ∷ "vc" ∷ "consegue" ∷ "conseguiria" ∷ "pode" ∷ "poderia" ∷ "podia" ∷ "quero"
    ∷ "queria" ∷ "gostaria" ∷ "favor" ∷ []

abbrev pub is_in : List String → String → Bool
is_in xs t = any (λ x. str_eq x t) xs

unfoldable pub tokens : Wording → String → List String
unfolding stopwords
tokens w text = distinct (select (λ t. not (is_in stopwords t)) (w.split (w.normalize text)))

-- `similarity(a, b) >= REPHRASE_THRESHOLD`; of an empty set it is 0.
abbrev pub is_similar : List String → List String → Bool
is_similar [] tb = false
is_similar (t ∷ ta) [] = false
is_similar (t ∷ ta) (u ∷ tb) =
    leb (3 * length (t ∷ ta ++ select (λ x. not (is_in (t ∷ ta) x)) (u ∷ tb)))
      (5 * length (select (is_in (t ∷ ta)) (u ∷ tb)))

-- `is_command` of a turn
unfoldable pub is_command_turn : Wording → Turn → Bool
is_command_turn w r = starts_with (w.lstrip r.user_text) "/"

unfoldable pub cant_do_patterns : List String
cant_do_patterns = "nao consigo" ∷ "nao tenho acesso" ∷ "nao posso" ∷ []

unfoldable pub says_cant : Wording → Turn → Bool
unfolding cant_do_patterns
says_cant w r =
    any (λ p. is_some (position (w.normalize (get_or r.reply_text "")) p)) cant_do_patterns

abbrev pub within_window : Turn → Turn → Bool
within_window r next = leb r.ts next.ts && leb next.ts (r.ts + next_turn_window)

unfoldable pub compute_signals : Wording → Turn → Option Turn → Signals
unfolding is_command_turn says_cant tokens
compute_signals w r next =
    let follows : Bool = elim next [
      | none ↦ false
      | some n ↦ not (is_command_turn w n) && within_window r n
    ] in
    let next_text : String = elim next [ none ↦ "" | some n ↦ n.user_text ] in
    if is_command_turn w r then no_signals else record {
      tool_failed = any has_failed r.tools;
      correction = follows && w.correction_re (w.normalize next_text);
      rephrase = follows && is_similar (tokens w r.user_text) (tokens w next_text);
      cant_do = says_cant w r;
    }

unfoldable pub turn_succeeded : Turn → Bool
turn_succeeded r =
    let s = r.signals in
    if elim r.feedback [ none ↦ false | some f ↦ str_eq f "ruim" ]
    then false
    else not (s.tool_failed || (s.correction || (s.rephrase || s.cant_do)))

abbrev pub is_of_session : String → Turn → Bool
is_of_session sid r = str_eq r.session_id sid

-- The loop over `reversed(rows)`: each row with the next one of its session, and the dict of the last
-- ones, in which the first entry of a session counts.
unfoldable pub links : Wording → List Turn → List (Turn × Option Turn) × List Turn
unfolding is_command_turn
links w [] = ([], [])
links w (r ∷ rs) =
    let (out, last) = links w rs in
    if is_command_turn w r
    then ((r, none) ∷ out, last)
    else ((r, find? (is_of_session r.session_id) last) ∷ out, r ∷ last)

pub record Report : Type 0 where
  pub turns : ℕ
  pub updated : ℕ
  pub tool_failed : ℕ
  pub correction : ℕ
  pub rephrase : ℕ
  pub cant_do : ℕ

abbrev pub one_if : Bool → ℕ → ℕ
one_if b n = if b then suc n else n

abbrev pub same_flag : Bool → Bool → Bool
same_flag true b = b
same_flag false b = not b

abbrev pub same_signals : Signals → Signals → Bool
same_signals a b =
    (same_flag a.tool_failed b.tool_failed && same_flag a.correction b.correction)
    && (same_flag a.rephrase b.rephrase && same_flag a.cant_do b.cant_do)

abbrev pub report_of : Signals → Bool → Report → Report
report_of sig written p = record {
  turns = suc p.turns;
  updated = one_if written p.updated;
  tool_failed = one_if sig.tool_failed p.tool_failed;
  correction = one_if sig.correction p.correction;
  rephrase = one_if sig.rephrase p.rephrase;
  cant_do = one_if sig.cant_do p.cant_do;
}

-- A row with its signals, that is stored where it differs from what the row has.
unfoldable pub store_signals : Turn → Signals → Report × Turns → Report × Turns
unfolding update_turn_signals
store_signals r sig (p, s) =
    let kept = same_signals sig r.signals in
    (report_of sig (not kept) p, if kept then s else update_turn_signals r.id sig s)

unfoldable pub scan : Wording → ℕ → List (Turn × Option Turn) → Report × Turns → Report × Turns
unfolding compute_signals store_signals
scan w until [] out = out
scan w until ((r, next) ∷ rest) out =
    scan w until rest
      (if leb until r.ts then out else store_signals r (compute_signals w r next) out)

abbrev pub is_user_turn : Turn → Bool
is_user_turn r = not (str_eq r.channel "scheduled")

unfoldable pub rows_until : ℕ → ℕ → Turns → List Turn
unfolding list_turns
rows_until since until s = select is_user_turn (list_turns since (until + next_turn_window) false s)

unfoldable pub run_usage_signals : Wording → ℕ → ℕ → Turns → Report × Turns
unfolding links scan rows_until
run_usage_signals w since until s = scan w until (links w (rows_until since until s)).0 (
  record { turns = 0; updated = 0; tool_failed = 0; correction = 0; rephrase = 0; cant_do = 0 },
  s,
)
