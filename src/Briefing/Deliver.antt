-- ===== src/Briefing/Deliver.antt =====
-- `deliver_briefing` of agent/services/briefing.py. The assembled briefing, the outcome of the send,
-- and which calls of the database return stand in `Env`; a call that raises leaves the log as it is.
-- What is handed to Telegram, the metrics, the memory and the tables of messages is a list.
use Prim.Native.String.{◌++◌ as cat}
use evi.Common.{
  ℕ, String, Bool, true, false, not, ◌&&◌, Option, none, some, List, [], ◌∷◌, ◌++◌, str_eq,
  if◌then◌else◌, length, map, select,
}
use evi.SendResult.{SendResult, Reason}
use evi.Briefing.{Report, Log, claim_briefing, record_briefing, briefing_sent_today}
use evi.Briefing.Ops.{Op, run}
use evi.Briefing.Items.{BriefItem, Section, Key}
use evi.Briefing.Buttons.{Button, actionable_kinds, remindable_titles, build_keyboard}

pub record Brief : Type 0 where
  pub text : String
  pub sections : List Section
  pub items : List BriefItem
  pub text_user : String

-- The payload of a `morning_briefing` snapshot. The keys are the numbers of the items.
pub record Snapshot : Type 0 where
  pub kind : String
  pub day : Option ℕ
  pub refs : List (ℕ × String)
  pub aw : List (ℕ × String)
  pub message_id : Option ℕ
  pub rm : List (ℕ × String)

pub data Effect : Type 0 where
  -- text, chat, whether as HTML, keyboard
  sends : String → String → Bool → Option (List (List Button)) → Effect
  counts : String → Bool → Effect
  remembers : String → String → Effect
  saves : String → String → Effect
  snapshots : String → Snapshot → Effect

pub data Outcome : Type 0 where
  already_sent : Outcome
  in_progress : Outcome
  failed : Option Reason → Outcome
  sent : ℕ → List Report → Outcome

pub record Delivery : Type 0 where
  pub log : Log
  pub effects : List Effect
  pub outcome : Outcome

pub record Env : Type 0 where
  pub day : ℕ
  pub brief : Brief
  pub chat_id : String
  pub buttons : Bool
  pub has_database : Bool
  pub send : SendResult
  -- whether the calls return, and the clock of the database in them
  pub claim_ok : Bool
  pub claim_at : ℕ
  pub sent_ok : Bool
  pub record_ok : Bool
  pub record_at : ℕ
  pub memory_ok : Bool
  pub message_ok : Bool
  pub snapshot_ok : Bool
  -- what others do to the log while the briefing is assembled and sent
  pub meanwhile : List Op
  -- texts: the digits of the day, decimals, names of sections, `strip_markers` and `wrap_external`
  pub day_digits : String
  pub show : ℕ → String
  pub key_text : Key → String
  pub strip_markers : String → String
  pub wrap_external : String → String

abbrev pub reports : Env → List Section → List Report
reports env ss =
    map
      (λ s. record {
        key = env.key_text s.key;
        count = if s.collapsed then s.total else length s.items;
        error = s.error;
      })
      ss

-- `_telegram_session_id`
abbrev pub telegram_session_id : String → String
telegram_session_id chat_id = cat "telegram-" chat_id

abbrev pub ref_text : BriefItem → String
ref_text it = cat it.ref.kind (cat ":" it.ref.id)

abbrev pub snapshot_of : Env → String → Snapshot
snapshot_of env kind = record {
  kind = kind;
  day = some env.day;
  refs = map (λ it. (it.n, ref_text it)) env.brief.items;
  aw =
      map (λ it. (it.n, it.ref.out_at))
        (select (λ it. not (str_eq it.ref.out_at "")) env.brief.items);
  message_id = env.send.message_id;
  rm = map (λ p. (p.0, env.wrap_external p.1)) (remindable_titles env.brief.items kind);
}

abbrev pub keyboard : Env → String → Option (List (List Button))
keyboard env kind =
    if env.buttons
    then some (
        build_keyboard env.show env.day_digits kind (actionable_kinds env.brief.items) [] none
          (map (λ p. p.0) (remindable_titles env.brief.items kind)) [])
    else none

abbrev pub message : Env → String → Effect
message env kind =
    if str_eq env.brief.text_user ""
    then sends (env.strip_markers env.brief.text) env.chat_id false (keyboard env kind)
    else sends env.brief.text_user env.chat_id true (keyboard env kind)

-- What follows a send that succeeded; a call that raises leaves nothing.
abbrev pub after_send : Env → String → List Effect
after_send env kind =
    let session = telegram_session_id env.chat_id in
    (if env.memory_ok then remembers session env.brief.text ∷ [] else [])
    ++ (if env.has_database && env.message_ok then saves session env.brief.text ∷ [] else [])
    ++ (if env.snapshot_ok then snapshots session (snapshot_of env kind) ∷ [] else [])

-- From the assembly on.
unfoldable pub send_out : Env → String → Log → Delivery
send_out env kind s =
    let s' = run env.meanwhile s in
    let ok = env.send.sent in
    record {
      log =
          if env.record_ok
          then (record_briefing env.day kind ok (reports env env.brief.sections) env.record_at s').0
          else s';
      effects = message env kind ∷ counts kind ok ∷ (if ok then after_send env kind else []);
      outcome =
          if ok
          then sent (length env.brief.items) (reports env env.brief.sections)
          else failed env.send.reason;
    }

-- The answer of the claim: the slot, or none, where the log says whether the briefing was sent. If
-- that question raises, the delivery goes on.
unfoldable pub answer_claim : Env → String → Option ℕ → Log → Delivery
unfolding send_out
answer_claim env kind (some id) s = send_out env kind s
answer_claim env kind none s =
    if env.sent_ok
    then record {
      log = s;
      effects = [];
      outcome = if briefing_sent_today env.day kind s then already_sent else in_progress;
    }
    else send_out env kind s

unfoldable pub deliver_briefing : Env → String → Bool → Log → Delivery
unfolding answer_claim
deliver_briefing env kind force s =
    let (s', slot) = claim_briefing env.day kind 10 env.claim_at s in
    if not force && env.claim_ok then answer_claim env kind slot s' else send_out env kind s
