-- ===== src/Briefing/Resolve.antt =====
-- From the number of an item to what it refers to: `today_snapshot` and `resolve_briefing_items` of
-- agent/services/briefing.py. The table of snapshots is a list, the newest first; `canonical` gives
-- the decimal text of an id that is a number. An error stands for its text.
use Prim.Native.Char.{code}
use Prim.Native.String.{◌++◌ as cat}
use evi.Common.{
  ℕ, String, Bool, false, not, ◌||◌, Option, none, some, List, [], ◌∷◌, ◌++◌, ◌==◌, str_eq,
  if◌then◌else◌, any, take, select, max,
}
use evi.Briefing.Buttons.{value_of}
use evi.Briefing.Deliver.{Snapshot, Effect, snapshots}

pub record Stored : Type 0 where
  pub session_id : String
  pub tool_name : String
  pub payload : Snapshot
  -- the local date of `created_at`
  pub created_on : ℕ

-- The rows that the effects of a delivery add on a day.
abbrev pub stored : ℕ → List Effect → List Stored → List Stored
stored today [] rows = rows
stored today (snapshots session payload ∷ es) rows = stored today es (
    record {
      session_id = session;
      tool_name = "morning_briefing";
      payload = payload;
      created_on = today;
    }
    ∷ rows)
stored today (_ ∷ es) rows = stored today es rows

abbrev pub is_other : Option String → String → Bool
is_other none kind = false
is_other (some wanted) kind = not (str_eq kind wanted)

-- The briefing's own day, or that of the row where it has none.
abbrev pub is_of_day : ℕ → Stored → Bool
is_of_day today r = elim r.payload.day [ none ↦ r.created_on == today | some d ↦ d == today ]

abbrev pub first_today : Option String → ℕ → List Stored → Option Snapshot
first_today kind today [] = none
first_today kind today (r ∷ rs) =
    let rest = first_today kind today rs in
    if not (str_eq r.tool_name "morning_briefing")
    then rest
    else if is_other kind r.payload.kind
    then rest
    else if is_of_day today r
    then some r.payload
    else none

-- Whether the table can be read; where it cannot, there is no snapshot.
unfoldable pub today_snapshot :
    Bool → Option String → Option String → ℕ → List Stored → Option Snapshot
today_snapshot ok none kind today rows = none
today_snapshot ok (some session) kind today rows =
    if str_eq session "" || not ok
    then none
    else first_today kind today (take 50 (select (λ r. str_eq r.session_id session) rows))

pub data Problem : Type 0 where
  no_briefing : Problem
  -- the number and the last number of the briefing
  missing : ℕ → ℕ → Problem
  wrong_kind : ℕ → Problem

-- `text.partition(":")`, without the colon
unfoldable pub partition : String → String × String
partition String.[] = ("", "")
partition (String.◌∷◌ c s) =
    let (before, after) = partition s in
    if code c == 58 then ("", s) else (String.◌∷◌ c before, after)

abbrev pub last_number : List (ℕ × String) → ℕ
last_number [] = 0
last_number ((n, ref) ∷ rest) = max n (last_number rest)

abbrev pub is_known : String → List String → Bool
is_known id ids = any (λ i. str_eq i id) ids

-- Kinds whose ids are texts.
abbrev pub has_text_id : String → Bool
has_text_id kind = str_eq kind "reply_debt" || str_eq kind "name_prompt" || str_eq kind "awaiting"

abbrev pub add_id : String → List String × List Problem → List String × List Problem
add_id id (ids, errors) = (if is_known id ids then ids else ids ++ id ∷ [], errors)

abbrev pub add_error : Problem → List String × List Problem → List String × List Problem
add_error e (ids, errors) = (ids, errors ++ e ∷ [])

module _ (canonical : String → Option String) (kind : String) where
  abbrev pub take_number :
      ℕ → Option String → List String × List Problem → List String × List Problem
  take_number n none found = add_error (wrong_kind n) found
  take_number n (some id) found = add_id id found

  -- One number, with the kind and the id that its reference names.
  abbrev pub take_ref :
      ℕ → String × String → List String × List Problem → List String × List Problem
  take_ref n (ref_kind, ref_id) found =
      if has_text_id kind
      then if not (str_eq ref_kind kind) || str_eq ref_id ""
        then add_error (wrong_kind n) found
        else add_id ref_id found
      else if not (str_eq ref_kind kind)
      then add_error (wrong_kind n) found
      else take_number n (canonical ref_id) found

  abbrev pub take_one :
      List (ℕ × String)
      → ℕ
      → Option String
      → List String × List Problem
      → List String × List Problem
  take_one refs n none found = add_error (missing n (last_number refs)) found
  take_one refs n (some ref) found = take_ref n (partition ref) found

  unfoldable pub resolve_each :
      List (ℕ × String) → List ℕ → List String × List Problem → List String × List Problem
  unfolding partition
  resolve_each refs [] found = found
  resolve_each refs (n ∷ ns) found = resolve_each refs ns (take_one refs n (value_of n refs) found)

  unfoldable pub resolve_in : List ℕ → Option Snapshot → List String × List Problem
  unfolding resolve_each
  resolve_in [] none = ([], [])
  resolve_in (n ∷ ns) none = ([], no_briefing ∷ [])
  resolve_in ns (some payload) = resolve_each payload.refs ns ([], [])

  -- The session of the turn, or that of the configured chat; an empty text stands for none.
  abbrev pub session_or : Option String → String → Option String
  session_or none chat_id = if str_eq chat_id "" then none else some (cat "telegram-" chat_id)
  session_or (some session) chat_id =
      if str_eq session ""
      then if str_eq chat_id "" then none else some (cat "telegram-" chat_id)
      else some session

  unfoldable pub resolve_briefing_items :
      Bool → Option String → String → ℕ → List ℕ → List Stored → List String × List Problem
  unfolding resolve_in today_snapshot
  resolve_briefing_items ok session chat_id today numbers rows =
      resolve_in numbers (today_snapshot ok (session_or session chat_id) none today rows)
