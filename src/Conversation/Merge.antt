-- ===== src/Conversation/Merge.antt =====
-- Two conversations of one person become one: `merge_conversation_state` of agent/db.py, the listing
-- of conversations that wait for the other side, and the dismissals of these.
use evi.Common.{
  ℕ, ◌+◌, String, Bool, true, false, not, ◌&&◌, Option, none, some, List, [], ◌∷◌, ◌++◌, ltb, leb,
  ◌==◌, str_eq, if◌then◌else◌, select, any, find?, sort, take, coalesce,
}
use evi.Conversation.{Conversation, new_row, greatest, is_of, upsert, is_newer, is_after}

-- ORDER BY updated_at DESC
abbrev pub updated_after : Conversation → Conversation → Bool
updated_after a b = ltb b.updated_at a.updated_at

unfoldable pub list_states : List Conversation → List Conversation
list_states rows = sort updated_after rows

-- `EXCLUDED.x IS NOT NULL AND (t.x IS NULL OR EXCLUDED.x > t.x)`
abbrev pub comes_later : Option ℕ → Option ℕ → Bool
comes_later none t = false
comes_later (some e) t = is_newer t e

-- The row of the other conversation as it is inserted, where there is none yet.
abbrev pub moved : String → ℕ → Conversation → Conversation
moved jid db_now src = record (new_row jid db_now) {
  last_in_at = src.last_in_at;
  last_in_preview = src.last_in_preview;
  last_in_id = src.last_in_id;
  last_out_at = src.last_out_at;
  acknowledged_at = src.acknowledged_at;
  last_out_preview = src.last_out_preview;
}

-- DO UPDATE SET …
abbrev pub merged : Conversation → ℕ → Conversation → Conversation
merged src db_now dst = record dst {
  last_out_preview =
      if comes_later src.last_out_at dst.last_out_at
      then coalesce src.last_out_preview dst.last_out_preview
      else coalesce dst.last_out_preview src.last_out_preview;
  last_in_preview =
      if comes_later src.last_in_at dst.last_in_at
      then src.last_in_preview
      else dst.last_in_preview;
  last_in_id = if comes_later src.last_in_at dst.last_in_at then src.last_in_id else dst.last_in_id;
  last_in_at = greatest dst.last_in_at src.last_in_at;
  last_out_at = greatest dst.last_out_at src.last_out_at;
  acknowledged_at = greatest dst.acknowledged_at src.acknowledged_at;
  updated_at = db_now;
}

-- With whether there was a row to fold.
abbrev pub fold_row :
    String → String → ℕ → Option Conversation → List Conversation → List Conversation × Bool
fold_row src_jid dst_jid db_now none rows = (rows, false)
fold_row src_jid dst_jid db_now (some src) rows = (
  select (λ r. not (is_of src_jid r))
      (upsert dst_jid (moved dst_jid db_now src) (merged src db_now) rows),
  true,
)

unfoldable pub merge_conversation_state :
    String → String → ℕ → List Conversation → List Conversation × Bool
merge_conversation_state src_jid dst_jid db_now rows =
    if str_eq src_jid dst_jid
    then (rows, false)
    else fold_row src_jid dst_jid db_now (find? (is_of src_jid) rows) rows

-- The WHERE of `list_awaiting_candidates`; the ages are at most `now`.
abbrev pub is_awaiting : ℕ → ℕ → ℕ → Conversation → Bool
is_awaiting now min_age max_age r = elim r.last_out_at [
  | none ↦ false
  | some t ↦ is_after t r.last_in_at && (leb (t + min_age) now && leb now (t + max_age))
]

-- ORDER BY last_out_at
abbrev pub spoken_before : Conversation → Conversation → Bool
spoken_before a b = elim a.last_out_at [
  | none ↦ false
  | some t ↦ elim b.last_out_at [ none ↦ true | some u ↦ ltb t u ]
]

unfoldable pub list_awaiting_candidates : ℕ → ℕ → ℕ → ℕ → List Conversation → List Conversation
list_awaiting_candidates now min_age max_age limit rows =
    take limit (sort spoken_before (select (is_awaiting now min_age max_age) rows))

-- The table `awaiting_dismissed`.
abbrev pub is_dismissal : String → ℕ → String × ℕ → Bool
is_dismissal jid out_at (j, t) = str_eq j jid && t == out_at

unfoldable pub dismiss_awaiting : String → ℕ → List (String × ℕ) → List (String × ℕ)
dismiss_awaiting jid out_at rows =
    if any (is_dismissal jid out_at) rows then rows else rows ++ (jid, out_at) ∷ []

unfoldable pub is_awaiting_dismissed : String → ℕ → List (String × ℕ) → Bool
is_awaiting_dismissed jid out_at rows = any (is_dismissal jid out_at) rows
