-- ===== src/ReplyDebts.antt =====
-- agent/services/reply_debts.py: which answers the user owes. What rests on the re and unicodedata
-- modules, on the names of contacts and on their files is a parameter, and so is what canonical_jid
-- answers during a call.
pub mod Track
pub mod Listing
pub mod Owed
pub mod Awaited
use evi.Common.{
  ℕ, suc, ◌+◌, ◌-◌, ◌*◌, ◌/◌, String, Bool, true, false, not, ◌&&◌, ◌||◌, Option, none, some, List,
  [], ◌∷◌, ◌++◌, ltb, leb, ◌==◌, str_eq, if◌then◌else◌, is_some, any, select, sort, get_or,
}
use evi.Conversation.{
  Conversation, record_inbound, record_outbound, list_debt_candidates, heard_before,
}
use evi.Conversation.Merge.{
  list_states, merge_conversation_state, list_awaiting_candidates, is_awaiting_dismissed,
  comes_later, spoken_before,
}

pub record Jids : Type 0 where
  pub is_lid : String → Bool
  pub is_one_way : String → Bool
  pub is_group : String → Bool
  pub canonical : String → String
  -- `parse_control_jids`
  pub control : List String

pub record Wording : Type 0 where
  pub strip : String → String
  pub len : String → ℕ
  pub words : String → ℕ
  pub is_closing : String → Bool
  pub looks_like_request : String → Bool
  pub is_request : String → Bool
  pub is_placeholder : String → Bool
  -- the cut of a preview, of a message that was heard and of one that was sent
  pub cut : String → String
  pub cut_out : String → String
  pub excerpt : String → String
  pub name_of : String → String

abbrev pub is_control : Jids → String → Bool
is_control j jid = any (λ c. str_eq c jid) j.control

unfoldable pub is_ambiguous : Wording → String → Bool
is_ambiguous w preview =
    let t = w.strip preview in
    if str_eq t "" || w.is_placeholder t
    then false
    else if leb 160 (w.len preview)
    then false
    else not (w.is_closing t) && not (w.looks_like_request t)

abbrev pub same_text : Option String → Option String → Bool
same_text (some a) (some b) = str_eq a b
same_text _ _ = false

unfoldable pub has_valid_verdict : Conversation → Bool
has_valid_verdict r =
    not (str_eq (get_or r.last_in_id "") "")
    && (same_text r.judge_in_id r.last_in_id && is_some r.judge_needs_reply)

-- _ACK_WINDOW, in microseconds, and _ACK_MAX_WORDS
abbrev pub ack_window : ℕ
ack_window = 600000000

abbrev pub ack_max_words : ℕ
ack_max_words = 3

abbrev pub in_ack_window : Option ℕ → Option ℕ → Bool
in_ack_window (some t) (some u) = leb u t && leb t (u + ack_window)
in_ack_window _ _ = false

unfoldable pub is_acknowledgement : Wording → String → Option ℕ → Option ℕ → Bool
is_acknowledgement w preview last_in_at last_out_at =
    in_ack_window last_in_at last_out_at
    && (leb (w.words (w.strip preview)) ack_max_words
        && not (w.looks_like_request (w.strip preview)))

-- A conversation under a `@lid` whose phone is known.
abbrev pub is_alias : Jids → String → Bool
is_alias j jid = j.is_lid jid && not (str_eq (j.canonical jid) jid)

-- The loop over the states that were listed; the first call that raises ends it.
unfoldable pub fold_states :
    Jids → (String → Bool) → ℕ → List Conversation → List Conversation → List Conversation
fold_states j ok db_now [] rows = rows
fold_states j ok db_now (st ∷ sts) rows =
    let rows' =
      if is_alias j st.jid
      then (merge_conversation_state st.jid (j.canonical st.jid) db_now rows).0
      else rows in
    let rest = fold_states j ok db_now sts rows' in
    if is_alias j st.jid && not (ok st.jid) then rows else rest

unfoldable pub fold_alias_states :
    Jids → (String → Bool) → ℕ → List Conversation → List Conversation
unfolding fold_states
fold_alias_states j ok db_now rows = fold_states j ok db_now (list_states rows) rows

-- The dictionary `latest`, in the order of its keys: the row of a contact that is the later one by a
-- time of the rows.
module _ (time : Conversation → Option ℕ) where
  abbrev pub keep : Conversation → List Conversation → List Conversation
  keep r [] = r ∷ []
  keep r (x ∷ xs) =
      let rest = keep r xs in
      if str_eq x.jid r.jid then (if comes_later (time r) (time x) then r else x) ∷ xs else x ∷ rest

  unfoldable pub latest :
      (String → String) → List Conversation → List Conversation → List Conversation
  latest canonical [] kept = kept
  latest canonical (r ∷ rs) kept =
      latest canonical rs (keep (record r { jid = canonical r.jid }) kept)

pub record Debt : Type 0 where
  pub jid : String
  pub name : String
  pub since : ℕ
  -- in microseconds
  pub age : ℕ
  pub preview : String
  pub out_preview : String

abbrev pub is_refused : Option Bool → Bool
is_refused (some false) = true
is_refused _ = false

-- The conditions that the loop passes over a row for.
abbrev pub is_no_debt : Jids → Wording → Conversation → Bool
is_no_debt j w r =
    let preview = get_or r.last_in_preview "" in
    (j.is_one_way r.jid || w.is_closing preview)
    || (is_acknowledgement w preview r.last_in_at r.last_out_at
        || (is_ambiguous w preview && has_valid_verdict r && is_refused r.judge_needs_reply))

abbrev pub debt_of : Wording → ℕ → Conversation → Debt
debt_of w now r = record {
  jid = r.jid;
  name = w.name_of r.jid;
  since = get_or r.last_in_at 0;
  age = now - get_or r.last_in_at 0;
  preview = get_or r.last_in_preview "";
  out_preview = get_or r.last_out_preview "";
}

-- The loop that fills the list: it ends when the list has its limit.
abbrev pub add {ℓ} : {A : Type ℓ} → Bool → Option A → List A → List A
add full none rest = rest
add full (some a) rest = a ∷ (if full then [] else rest)

unfoldable pub collect {ℓ} :
    {A : Type ℓ} → (Conversation → Option A) → ℕ → ℕ → List Conversation → List A
collect take_row limit n [] = []
collect take_row limit n (r ∷ rs) =
    let n' = if is_some (take_row r) then suc n else n in
    let rest = collect take_row limit n' rs in add (leb limit n') (take_row r) rest

abbrev pub owed : Jids → Wording → ℕ → Conversation → Option Debt
owed j w now r = if is_no_debt j w r then none else some (debt_of w now r)

unfoldable pub list_debts :
    Jids
    → Wording
    → (String → Bool)
    → ℕ
    → ℕ
    → ℕ
    → ℕ
    → ℕ
    → List Conversation
    → List Conversation × List Debt
unfolding fold_alias_states latest collect
list_debts j w ok now min_age max_age limit db_now rows =
    let folded = fold_alias_states j ok db_now rows in
    let found = list_debt_candidates now min_age max_age 200 folded in
    (
      folded,
      collect (owed j w now) limit 0
          (sort heard_before (latest (λ r. r.last_in_at) j.canonical found [])),
    )
