-- ===== src/Conversation.antt =====
-- The table `wa_conversation_state` and its functions in agent/db.py: who spoke last in each
-- conversation, and which answers the user owes. Cutting a preview is a parameter.
pub mod Debts
pub mod Merge
pub mod Merging
use evi.Common.{
  ℕ, ◌+◌, ◌-◌, String, Bool, true, false, not, ◌&&◌, ◌||◌, Option, none, some, List, [], ◌∷◌, ◌++◌,
  ltb, leb, ◌==◌, str_eq, if◌then◌else◌, max, select, update, any, find?, sort, take, coalesce,
}

pub record Conversation : Type 0 where
  pub jid : String
  pub last_in_at : Option ℕ
  pub last_in_preview : Option String
  pub last_in_id : Option String
  pub last_out_at : Option ℕ
  pub last_out_preview : Option String
  pub acknowledged_at : Option ℕ
  pub judge_in_id : Option String
  pub judge_needs_reply : Option Bool
  pub judge_at : Option ℕ
  pub updated_at : ℕ

abbrev pub new_row : String → ℕ → Conversation
new_row jid db_now = record {
  jid = jid;
  last_in_at = none;
  last_in_preview = none;
  last_in_id = none;
  last_out_at = none;
  last_out_preview = none;
  acknowledged_at = none;
  judge_in_id = none;
  judge_needs_reply = none;
  judge_at = none;
  updated_at = db_now;
}

-- GREATEST, which passes over NULL
abbrev pub greatest : Option ℕ → Option ℕ → Option ℕ
greatest none b = b
greatest (some a) none = some a
greatest (some a) (some b) = some (max a b)

abbrev pub is_of : String → Conversation → Bool
is_of jid r = str_eq r.jid jid

-- INSERT … ON CONFLICT (jid) DO UPDATE
abbrev pub upsert :
    String → Conversation → (Conversation → Conversation) → List Conversation → List Conversation
upsert jid row f rows = if any (is_of jid) rows then update (is_of jid) f rows else rows ++ row ∷ []

-- `last_at IS NULL OR ts > last_at`
abbrev pub is_newer : Option ℕ → ℕ → Bool
is_newer none ts = true
is_newer (some t) ts = ltb t ts

abbrev pub heard : ℕ → String → String → ℕ → Conversation → Conversation
heard ts preview msg_id db_now r =
    if is_newer r.last_in_at ts
    then record r {
      last_in_at = some ts;
      last_in_preview = some preview;
      last_in_id = some msg_id;
      updated_at = db_now;
    }
    else r

unfoldable pub record_inbound :
    (String → String) → String → ℕ → String → String → ℕ → List Conversation → List Conversation
record_inbound cut jid ts preview msg_id db_now rows =
    upsert jid (heard ts (cut preview) msg_id db_now (new_row jid db_now))
      (heard ts (cut preview) msg_id db_now) rows

-- `last_out_at IS NULL OR ts >= last_out_at`
abbrev pub is_latest : Option ℕ → ℕ → Bool
is_latest none ts = true
is_latest (some t) ts = leb t ts

abbrev pub spoken : ℕ → Option String → ℕ → Conversation → Conversation
spoken ts preview db_now r = record r {
  last_out_preview =
      if is_latest r.last_out_at ts
      then coalesce preview r.last_out_preview
      else r.last_out_preview;
  last_out_at = greatest r.last_out_at (some ts);
  updated_at = db_now;
}

-- `preview` is that of the text, cut, or none where there is no text.
unfoldable pub record_outbound :
    String → ℕ → Option String → ℕ → List Conversation → List Conversation
record_outbound jid ts preview db_now rows =
    upsert jid (spoken ts preview db_now (new_row jid db_now)) (spoken ts preview db_now) rows

abbrev pub acknowledged : ℕ → ℕ → Conversation → Conversation
acknowledged ts db_now r = record r {
  acknowledged_at = greatest r.acknowledged_at (some ts);
  updated_at = db_now;
}

unfoldable pub acknowledge : String → ℕ → ℕ → List Conversation → List Conversation
acknowledge jid ts db_now rows =
    upsert jid (acknowledged ts db_now (new_row jid db_now)) (acknowledged ts db_now) rows

unfoldable pub get_state : String → List Conversation → Option Conversation
get_state jid rows = find? (is_of jid) rows

-- `t > COALESCE(other, '-infinity')`
abbrev pub is_after : ℕ → Option ℕ → Bool
is_after t none = true
is_after t (some u) = ltb u t

-- The WHERE of `list_debt_candidates`; the ages are at most `now`.
abbrev pub is_debt : ℕ → ℕ → ℕ → Conversation → Bool
is_debt now min_age max_age r = elim r.last_in_at [
  | none ↦ false
  | some t ↦
      (is_after t r.last_out_at && is_after t r.acknowledged_at)
      && (leb (t + min_age) now && leb now (t + max_age))
]

-- ORDER BY last_in_at
abbrev pub heard_before : Conversation → Conversation → Bool
heard_before a b = elim a.last_in_at [
  | none ↦ false
  | some t ↦ elim b.last_in_at [ none ↦ true | some u ↦ ltb t u ]
]

unfoldable pub list_debt_candidates : ℕ → ℕ → ℕ → ℕ → List Conversation → List Conversation
list_debt_candidates now min_age max_age limit rows =
    take limit (sort heard_before (select (is_debt now min_age max_age) rows))

abbrev pub is_heard : String → String → Conversation → Bool
is_heard jid in_id r =
    str_eq r.jid jid && elim r.last_in_id [ none ↦ false | some i ↦ str_eq i in_id ]

unfoldable pub set_debt_verdict :
    String → String → Bool → ℕ → List Conversation → List Conversation × Bool
set_debt_verdict jid in_id needs_reply db_now rows = (
  update (is_heard jid in_id)
      (λ r. record r {
        judge_in_id = some in_id;
        judge_needs_reply = some needs_reply;
        judge_at = some db_now;
      })
      rows,
  any (is_heard jid in_id) rows,
)
