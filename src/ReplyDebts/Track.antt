-- ===== src/ReplyDebts/Track.antt =====
-- `track_conversation` of agent/services/reply_debts.py: which messages are recorded.
use evi.Common.{
  ℕ, suc, String, Bool, not, ◌||◌, Option, none, some, List, [], ◌∷◌, str_eq, if◌then◌else◌,
}
use evi.Conversation.{Conversation, record_inbound, record_outbound}
use evi.ReplyDebts.{Jids, Wording, is_control}

pub record Message : Type 0 where
  pub id : String
  pub sender : String
  pub is_group : Bool
  pub from_me : Bool
  pub kind : String
  pub text : String
  -- of `_parse_ts`
  pub ts : ℕ
  pub is_bot : Bool
  -- whether the calls for it return: of the database, and of the timeline
  pub db_ok : Bool
  pub timeline_ok : Bool
  pub db_now : ℕ

abbrev pub is_skipped : Jids → Message → Bool
is_skipped j m =
    (m.is_group || j.is_group m.sender || is_control j m.sender || j.is_one_way m.sender)
    || m.is_bot

-- The preview of a text, which a missing one has not.
abbrev pub out_preview : Wording → Message → Option String
out_preview w m =
    let text = if str_eq m.kind "text" then m.text else "[mídia]" in
    if str_eq text "" then none else some (w.cut_out text)

abbrev pub track_message : Jids → Wording → Message → List Conversation × ℕ → List Conversation × ℕ
track_message j w m (rows, recorded) =
    if is_skipped j m || not m.db_ok
    then (rows, recorded)
    else if m.from_me
    then (
      record_outbound (j.canonical m.sender) m.ts (out_preview w m) m.db_now rows,
      if m.timeline_ok then suc recorded else recorded,
    )
    else (
      record_inbound w.cut (j.canonical m.sender) m.ts
          (if str_eq m.kind "audio" then "[áudio]" else m.text) m.id m.db_now rows,
      suc recorded,
    )

unfoldable pub track_messages :
    Jids → Wording → List Message → List Conversation × ℕ → List Conversation × ℕ
track_messages j w [] k = k
track_messages j w (m ∷ ms) k = track_messages j w ms (track_message j w m k)

-- Without a database, or where the set-up raises, nothing is recorded.
unfoldable pub track_conversation :
    Bool → Jids → Wording → List Message → List Conversation → List Conversation × ℕ
unfolding track_messages
track_conversation ready j w ms rows = if ready then track_messages j w ms (rows, 0) else (rows, 0)
