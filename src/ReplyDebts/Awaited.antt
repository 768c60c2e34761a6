-- ===== src/ReplyDebts/Awaited.antt =====
-- agent/services/awaiting_reply.py: which answers the other side owes.
use evi.Common.{
  ℕ, ◌-◌, ◌*◌, ◌/◌, String, Bool, not, ◌||◌, Option, none, some, List, [], str_eq, if◌then◌else◌,
  sort, get_or,
}
use evi.Conversation.{Conversation}
use evi.Conversation.Merge.{list_awaiting_candidates, is_awaiting_dismissed, spoken_before}
use evi.ReplyDebts.{Jids, Wording, is_control, fold_alias_states, latest, collect}

pub record Awaited : Type 0 where
  pub jid : String
  pub label : String
  pub out_at : ℕ
  pub days : ℕ
  pub excerpt : String

abbrev pub day_us : ℕ
day_us = 86400000000

-- What the candidates need of a conversation: the user's last text, none where its reading raises,
-- and whether the question for a dismissal returns.
pub record Reading : Type 0 where
  pub last_user_text : String → ℕ → Option String
  pub dismissed_ok : String → Bool
  pub dismissed : List (String × ℕ)

abbrev pub is_unawaited : Wording → String → Bool
is_unawaited w text = str_eq text "" || w.is_closing text || not (w.is_request text)

abbrev pub awaited_text : Wording → Reading → ℕ → String → ℕ → Option String → Option Awaited
awaited_text w d now jid out_at none = none
awaited_text w d now jid out_at (some text) =
    if is_unawaited w text
      || not (d.dismissed_ok jid)
      || is_awaiting_dismissed jid out_at d.dismissed
    then none
    else some (record {
      jid = jid;
      label = w.name_of jid;
      out_at = out_at;
      days = (now - out_at) / day_us;
      excerpt = w.excerpt text;
    })

-- One row of the loop of `candidates`.
abbrev pub awaited : Jids → Wording → Reading → ℕ → Conversation → Option Awaited
awaited j w d now r =
    let out_at = get_or r.last_out_at 0 in
    if j.is_group r.jid || is_control j r.jid || j.is_one_way r.jid
    then none
    else awaited_text w d now r.jid out_at (d.last_user_text r.jid out_at)

-- MAX_DAYS
abbrev pub max_days : ℕ
max_days = 30

unfoldable pub candidates :
    Jids
    → Wording
    → Reading
    → (String → Bool)
    → ℕ
    → ℕ
    → ℕ
    → ℕ
    → List Conversation
    → List Conversation × List Awaited
unfolding fold_alias_states latest collect
candidates j w d ok now min_age limit db_now rows =
    let folded = fold_alias_states j ok db_now rows in
    let found = list_awaiting_candidates now min_age (max_days * day_us) 200 folded in
    (
      folded,
      collect (awaited j w d now) limit 0
          (sort spoken_before (latest (λ r. r.last_out_at) j.canonical found [])),
    )
